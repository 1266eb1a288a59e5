-- ===== src/Daemon/Burst/Window.antt =====
-- What one sender's events in one window cause.
use unix_notis.Prelude.{
  text_eq, ℕ, ◌+◌, ◌-◌, ◌≤◌, ◌<◌, ◌≡◌, refl, sym, ◌∙◌, true, false, not, ◌&&◌, some, List, [], ◌∷◌,
  arith, length, leb, ltb, ◌==◌, min, Text, if◌then◌else◌,
}
use unix_notis.Prelude.Maps.{
  lookup, insert, contains_key, lookup_absent, lookup-insert, contains_key-elem, elem-keys,
  beq_refl,
}
use unix_notis.Daemon.Burst.{
  NotificationBurstState, NotificationSignalMode, direct, snapshot_only, suppress, signal_window,
  signal_track_limit, direct_signal_limit, u16_max, retain_recent, entry_or_new, count_event,
  mode_of, notification_signal_mode_for_sender,
}

-- The mode of the `k`-th event of a window.
abbrev pub kth_mode : ℕ → NotificationSignalMode
kth_mode k = if leb k 8 then direct else if k == 9 then snapshot_only else suppress

abbrev pub modes_from : ℕ → List ℕ → List NotificationSignalMode
modes_from k [] = []
modes_from k (t ∷ times) = kth_mode k ∷ modes_from (k + 1) times

-- Every time lies in the window that began at `started`.
abbrev pub Within : ℕ → List ℕ → Type 0
Within started [] = Unit {0}
Within started (t ∷ times) = (started ≤ t) × (t ≤ started + signal_window) × Within started times

-- The modes that a sender's events get, at the given times.
abbrev pub signal_modes :
    List (Text × NotificationBurstState) → Text → List ℕ → List NotificationSignalMode
signal_modes cache sender [] = []
signal_modes cache sender (t ∷ times) =
    let (cache', mode) = notification_signal_mode_for_sender cache sender t in
    mode ∷ signal_modes cache' sender times

-- The cache has counted `k` events of the sender in the window that began at `started`.
pub record Tracks (cache : List (Text × NotificationBurstState)) (sender : Text) (started k : ℕ)
    : Type 0 where
  pub state : NotificationBurstState
  pub found : lookup sender cache ≡ some state
  pub window : state.window_started ≡ started
  pub seen : started ≤ state.last_seen
  pub counted : state.count ≡ min k u16_max
  pub marked : state.snapshot_emitted ≡ ltb direct_signal_limit k

lookup-retain_recent :
    (now : ℕ) (sender : Text) (state : NotificationBurstState)
    (m : List (Text × NotificationBurstState))
    → leb (now - state.last_seen) signal_window ≡ true
    → lookup sender m ≡ some state
    → lookup sender (retain_recent now m) ≡ some state
unfolding retain_recent lookup
lookup-retain_recent now sender state [] r h = h
lookup-retain_recent now sender state ((k, v) ∷ m) r h =
    ground (arith, h, r, lookup-retain_recent now sender state m r)

cons_eq :
    {m m' : NotificationSignalMode} {ms ms' : List NotificationSignalMode}
    → m ≡ m'
    → ms ≡ ms'
    → (m ∷ ms) ≡ (m' ∷ ms')
cons_eq p q = cc (p, q)

-- One more event in a window that goes on.
counted_event :
    (state : NotificationBurstState) (k now : ℕ)
    → state.count ≡ min k u16_max
    → state.snapshot_emitted ≡ ltb direct_signal_limit k
    → now - state.window_started ≤ signal_window
    → let (after, mode) = mode_of (count_event now state) in
      (mode ≡ kth_mode (k + 1))
      × (after.window_started ≡ state.window_started)
      × (after.last_seen ≡ now)
      × (after.count ≡ min (k + 1) u16_max)
      × (after.snapshot_emitted ≡ ltb direct_signal_limit (k + 1))
unfolding mode_of count_event
counted_event state k now counted marked going = (
  ground (arith, counted, marked, going),
  ground (arith, counted, marked, going),
  ground (arith, counted, marked, going),
  ground (arith, counted, marked, going),
  ground (arith, counted, marked, going),
)

tracked_event :
    (cache : List (Text × NotificationBurstState)) (sender : Text) (now : ℕ)
    (state : NotificationBurstState)
    → lookup sender (retain_recent now cache) ≡ some state
    → let (after, mode) = mode_of (count_event now state) in
      notification_signal_mode_for_sender cache sender now
      ≡ (insert sender after (retain_recent now cache), mode)
unfolding notification_signal_mode_for_sender entry_or_new
tracked_event cache sender now state found =
    let kept = retain_recent now cache in
    let known = contains_key-elem sender kept ∙ elem-keys sender kept state found in
    let room : (leb signal_track_limit (length kept) && not (contains_key sender kept)) ≡ false =
      ground (arith, known) in
    rw room (rw found refl)

event-Tracks :
    (cache : List (Text × NotificationBurstState)) (sender : Text) (started k now : ℕ)
    → Tracks cache sender started k
    → started ≤ now
    → now ≤ started + signal_window
    → let (cache', mode) = notification_signal_mode_for_sender cache sender now in
      (mode ≡ kth_mode (k + 1)) × Tracks cache' sender started (k + 1)
event-Tracks cache sender started k now t after before =
    let state = t.state in
    let going : now - state.window_started ≤ signal_window = omega (arith, t.window, before) in
    let recent : now - state.last_seen ≤ signal_window = omega (arith, t.seen, before) in
    let found = lookup-retain_recent now sender state cache (ground (arith, recent)) t.found in
    let (mode, window, seen, counted, marked) =
      counted_event state k now t.counted t.marked going in
    let next = mode_of (count_event now state) in
    rw (tracked_event cache sender now state found) (
      mode,
      record {
        state = next.0;
        found =
            lookup-insert sender sender next.0 (retain_recent now cache)
            ∙ rw (beq_refl sender) refl;
        window = window ∙ t.window;
        seen = omega (arith, seen, after);
        counted = counted;
        marked = marked;
      },
    )

-- Once the sender is tracked with `k` events counted, all its further events of the window get
-- the modes of the `k + 1`-st, `k + 2`-nd and so on: direct up to the eighth, one snapshot for the
-- ninth, and nothing after it, whatever the other senders in the cache.
pub signal_modes-Tracks :
    (cache : List (Text × NotificationBurstState)) (sender : Text) (started k : ℕ) (times : List ℕ)
    → Tracks cache sender started k
    → Within started times
    → signal_modes cache sender times ≡ modes_from (k + 1) times
signal_modes-Tracks cache sender started k [] t w = refl
signal_modes-Tracks cache sender started k (now ∷ times) t w =
    let (mode, t') = event-Tracks cache sender started k now t w.0 w.1 in
    cons_eq mode (
      signal_modes-Tracks (notification_signal_mode_for_sender cache sender now).0 sender started
        (k + 1) times t' w.2)

abbrev unseen : ℕ → NotificationBurstState
unseen now = record { window_started = now; last_seen = now; count = 0; snapshot_emitted = false }

untracked_event :
    (cache : List (Text × NotificationBurstState)) (sender : Text) (now : ℕ)
    → contains_key sender (retain_recent now cache) ≡ false
    → length (retain_recent now cache) < signal_track_limit
    → let (after, mode) = mode_of (count_event now (unseen now)) in
      notification_signal_mode_for_sender cache sender now
      ≡ (insert sender after (retain_recent now cache), mode)
unfolding notification_signal_mode_for_sender entry_or_new
untracked_event cache sender now new few =
    let kept = retain_recent now cache in
    let none_yet = lookup_absent sender kept (sym (contains_key-elem sender kept) ∙ new) in
    let guard : (leb signal_track_limit (length kept) && not (contains_key sender kept)) ≡ false =
      ground (arith, few) in
    rw guard (rw none_yet refl)

first_event-Tracks :
    (cache : List (Text × NotificationBurstState)) (sender : Text) (now : ℕ)
    → contains_key sender (retain_recent now cache) ≡ false
    → length (retain_recent now cache) < signal_track_limit
    → let (cache', mode) = notification_signal_mode_for_sender cache sender now in
      (mode ≡ direct) × Tracks cache' sender now 1
first_event-Tracks cache sender now new few =
    let (mode, window, seen, counted, marked) =
      counted_event (unseen now) 0 now (omega arith) (ground arith) (omega arith) in
    let next = mode_of (count_event now (unseen now)) in
    rw (untracked_event cache sender now new few) (
      mode,
      record {
        state = next.0;
        found =
            lookup-insert sender sender next.0 (retain_recent now cache)
            ∙ rw (beq_refl sender) refl;
        window = window;
        seen = omega (arith, seen);
        counted = counted;
        marked = marked;
      },
    )

-- The events of one sender within one window, from the first one on, with room in the cache: eight
-- signals, one request to read a snapshot, and silence.
pub signal_modes-first :
    (cache : List (Text × NotificationBurstState)) (sender : Text) (now : ℕ) (times : List ℕ)
    → contains_key sender (retain_recent now cache) ≡ false
    → length (retain_recent now cache) < signal_track_limit
    → Within now times
    → signal_modes cache sender (now ∷ times) ≡ modes_from 1 (now ∷ times)
signal_modes-first cache sender now times new few w =
    let (mode, tracked) = first_event-Tracks cache sender now new few in
    cons_eq mode (
      signal_modes-Tracks (notification_signal_mode_for_sender cache sender now).0 sender now 1
        times tracked w)
