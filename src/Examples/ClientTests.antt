-- ===== src/Examples/ClientTests.antt =====
-- Tests of the clients' theorems, and of those on images, texts and delays.
use unix_notis.Popups.Restack.{shown_stack}
use unix_notis.Popups.Restack.Order.{shown_stack-desired}
use unix_notis.Prelude.Maps.{Distinct, elem, keys, lookup}
use unix_notis.Popups.{UiState, desired_seed_popups, id_of, reconcile_seed}
use unix_notis.Popups.Reconcile.{find_view, reconcile_seed-shown, shown}
use unix_notis.Model.Control.{ControlState, popup_allowed_by_state}
use unix_notis.Daemon.Control.{apply_inhibit, apply_inhibit-limit, max_active_inhibitors}
use unix_notis.Model.{ImageData, NotificationView, to_view}
use unix_notis.Prelude.{
  drop, take, leb, keep_if, List, [], arith, false, if◌then◌else◌, length, map, min, nat_eq, none,
  refl, some, text_eq, true, ℕ, ◌*◌, ◌+◌, ◌^◌, ◌∷◌, ◌≡◌, ◌≤◌,
}
use unix_notis.Prelude.Int.{pos}
use unix_notis.Model.Image.{bytes_per_pixel, checked_mul, fitting, normalized_rowstride, stride_for}
use unix_notis.Model.Pixels.{
  expand_at, expand_rgb_row_scalar, expand_rgb_row_ssse3, expand_rgb_to_rgba, expand_row,
  expand_rows, is_image_data_usable, max_image_dimension, normalize_image_data, normalized,
}
use unix_notis.Model.Pixels.Rows.{expand_rgb_row_ssse3-scalar}
use unix_notis.Model.Pixels.Usable.{normalize_image_data-usable}
use unix_notis.Center.{RowKey, Rows, group_header, notification_row, splice_changed}
use unix_notis.Center.Splice.{Replaced, splice_changed_lem}
use unix_notis.Center.Index.{NotificationList}
use unix_notis.Center.Grouped.{
  IsGrouped, apply_changes, apply_changes-IsGrouped, inserted, moved, removed,
}
use unix_notis.Commands.{CommandJob, slow}
use unix_notis.Commands.Coalesced.{
  CoalescedRefreshState, from_job, insert_coalesced_job, key_beq, key_eq,
}
use unix_notis.Commands.Coalesced.Valid.{IsValid}
use unix_notis.Commands.Coalesced.Newest.{
  Queue, Step-IsValid, enqueue, left_over, lookup-insert_coalesced_job,
}
use unix_notis.Commands.Delayed.{
  DelayedJob, NoneSooner, earliest_due, get_elem?, next_ready_delayed_job_index,
  next_ready_delayed_job_index-some,
}
use unix_notis.Commands.Drain.{StaysOpen, accepted_count, drain_loop}
use unix_notis.Commands.Drain.Rounds.{drain_loop-sends}
use unix_notis.Commands.Dispatch.{
  Queues, Sent, accepted, Reached, enqueue_command, enqueue_command-Reached, full,
}
use unix_notis.Texts.{sanitize_log_value}
use unix_notis.Texts.Clean.{all_of, is_plain, sanitize_log_value-is_plain}
use unix_notis.Retry.{backoff_jitter_ms, jitter_duration, new_backoff, next_sleep}
use unix_notis.Retry.Bounds.{after_sleeps, next_sleep-after}
use unix_notis.Examples.{Bool, bus_one, busy, note}
use unix_notis.Examples.Data.{busy-CacheValid}
use unix_notis.Daemon.Announce.{emit_state_changed, Emitted, emit_state_changed-heard, heard}

-- Coalesced commands: one slow refresh, and a later one for the same key.
abbrev job : ℕ → CommandJob ℕ
job at = record {
  cmd = 108 ∷ 115 ∷ [];
  plan = record { kind = slow; timeout_override = none };
  respond = none;
  queued_at = at;
}

abbrev waiting : CoalescedRefreshState ℕ
waiting = record { pending = []; order = [] }

abbrev queue : Queue ℕ
queue = record { state = waiting; held = none; sent = [] }

waiting-IsValid : IsValid waiting
unfolding elem keys
waiting-IsValid = (tt, tt, λ k. refl, omega arith)

one_waiting-IsValid : IsValid (insert_coalesced_job waiting (job 1)).1
one_waiting-IsValid = Step-IsValid {q = queue} (enqueue (job 1)) waiting-IsValid

Step-IsValid_example : IsValid (insert_coalesced_job waiting (job 1)).1
Step-IsValid_example = Step-IsValid {q = queue} (enqueue (job 1)) waiting-IsValid

lookup-insert_coalesced_job_example :
    lookup
      (from_job (job 2))
      (insert_coalesced_job (insert_coalesced_job waiting (job 1)).1 (job 2)).1.pending
    ≡ (if key_beq (from_job (job 2)) (from_job (job 2))
        then some (job 2)
        else left_over
            (insert_coalesced_job (insert_coalesced_job waiting (job 1)).1 (job 2)).0.evicted_oldest
            (insert_coalesced_job waiting (job 1)).1
            (from_job (job 2)))
lookup-insert_coalesced_job_example =
    lookup-insert_coalesced_job (insert_coalesced_job waiting (job 1)).1 (job 2) (from_job (job 2))

-- Two refreshes with keys of their own wait, and the workers refuse the first one once.
abbrev two_waiting : CoalescedRefreshState ℕ
two_waiting =
    (insert_coalesced_job (insert_coalesced_job waiting (job 1)).1
      (record (job 2) { cmd = 97 ∷ [] })).1

two_waiting-IsValid : IsValid two_waiting
two_waiting-IsValid =
    Step-IsValid {q = record queue { state = (insert_coalesced_job waiting (job 1)).1 }}
      (enqueue (record (job 2) { cmd = 97 ∷ [] })) one_waiting-IsValid

abbrev answers : List Sent
answers = full ∷ accepted ∷ []

answers-StaysOpen : StaysOpen answers
answers-StaysOpen = (λ h. cc h, (λ h. cc h, tt))

drain_loop-sends_example :
    let (sent, left) = drain_loop answers two_waiting in
    (map (λ job. some job) sent
      ≡ map (λ k. lookup k two_waiting.pending) (take (accepted_count answers) two_waiting.order))
    × (left.order ≡ drop (accepted_count answers) two_waiting.order)
    × (map (λ k. lookup k left.pending) left.order
        ≡ map (λ k. lookup k two_waiting.pending) left.order)
    × IsValid left
drain_loop-sends_example =
    drain_loop-sends answers two_waiting answers-StaysOpen two_waiting-IsValid

abbrev delayed_jobs : List (DelayedJob ℕ)
delayed_jobs =
    record { ready_at = 30; seq = 0; job = job 1 }
    ∷ record { ready_at = 20; seq = 1; job = job 2 }
    ∷ record { ready_at = 90; seq = 2; job = job 3 }
    ∷ []

second_ready : next_ready_delayed_job_index delayed_jobs 50 ≡ some 1
unfolding next_ready_delayed_job_index earliest_due
second_ready = refl

next_ready_delayed_job_index-some_example :
    (x : DelayedJob ℕ) × (get_elem? delayed_jobs 1 ≡ some x)
    × (x.ready_at ≤ 50)
    × NoneSooner 50 x delayed_jobs
next_ready_delayed_job_index-some_example =
    next_ready_delayed_job_index-some delayed_jobs 50 1 second_ready

abbrev queues : Queues ℕ
queues = record {
  worker = [];
  fallback = [];
  ran = [];
  coalesced = waiting;
  delayed = record { pending = []; next_seq = 0 };
}

enqueue_command-Reached_example :
    Reached false full none
      (job 1)
      queues
      (enqueue_command false 10 5000000 full none (job 1) queues)
enqueue_command-Reached_example = enqueue_command-Reached false 10 5000000 full none (job 1) queues

-- The rows of the centre.
abbrev two_rows : Rows ℕ
two_rows = record {
  store = 7 ∷ 8 ∷ [];
  current_keys = group_header (97 ∷ []) ∷ notification_row 8 ∷ [];
  group_ranges = (97 ∷ [], record { start = 0; len = 2 }) ∷ [];
}

-- Rows with their keys and a mark of when they were made: rows 8 and 9 are there already, and stay.
abbrev key_of : RowKey × ℕ → RowKey
key_of row = row.0

abbrev old_rows : Rows (RowKey × ℕ)
old_rows = record {
  store = (notification_row 8, 1) ∷ (notification_row 7, 1) ∷ (notification_row 9, 1) ∷ [];
  current_keys = notification_row 8 ∷ notification_row 7 ∷ notification_row 9 ∷ [];
  group_ranges = [];
}

abbrev new_items : List (RowKey × ℕ)
new_items = (notification_row 8, 2) ∷ (notification_row 6, 2) ∷ (notification_row 9, 2) ∷ []

splice_changed_lem_example :
    let rebuilt = splice_changed (map key_of new_items) new_items [] old_rows in
    (map key_of rebuilt.store ≡ map key_of new_items)
    × (rebuilt.current_keys ≡ map key_of rebuilt.store)
    × Replaced key_of old_rows.store new_items rebuilt.store
splice_changed_lem_example = splice_changed_lem key_of new_items [] old_rows refl

abbrev empty_list : NotificationList
empty_list = record {
  entries = [];
  active_order = [];
  history_order = [];
  group_active_index = [];
  group_history_index = [];
  grouped_cache = [];
}

empty_list-IsGrouped : IsGrouped empty_list
unfolding lookup
empty_list-IsGrouped = (λ k. refl, λ k. tt, λ k. tt)

apply_changes-IsGrouped_example : IsGrouped (
    apply_changes
      (inserted (97 ∷ []) 1 true ∷ moved (97 ∷ []) 2 true ∷ removed (97 ∷ []) 1 true ∷ [])
      empty_list)
apply_changes-IsGrouped_example =
    apply_changes-IsGrouped
      (inserted (97 ∷ []) 1 true ∷ moved (97 ∷ []) 2 true ∷ removed (97 ∷ []) 1 true ∷ [])
      empty_list empty_list-IsGrouped

-- Images, texts, delays.
expand_rgb_row_ssse3-scalar_example :
    expand_rgb_row_ssse3
      (1 ∷ 2 ∷ 3 ∷ 4 ∷ 5 ∷ 6 ∷ 7 ∷ 8 ∷ 9 ∷ 10 ∷ 11 ∷ 12 ∷ 13 ∷ 14 ∷ 15 ∷ 16 ∷ 17 ∷ 18 ∷ [])
    ≡ expand_rgb_row_scalar
        (1 ∷ 2 ∷ 3 ∷ 4 ∷ 5 ∷ 6 ∷ 7 ∷ 8 ∷ 9 ∷ 10 ∷ 11 ∷ 12 ∷ 13 ∷ 14 ∷ 15 ∷ 16 ∷ 17 ∷ 18 ∷ [])
expand_rgb_row_ssse3-scalar_example =
    expand_rgb_row_ssse3-scalar
      (1 ∷ 2 ∷ 3 ∷ 4 ∷ 5 ∷ 6 ∷ 7 ∷ 8 ∷ 9 ∷ 10 ∷ 11 ∷ 12 ∷ 13 ∷ 14 ∷ 15 ∷ 16 ∷ 17 ∷ 18 ∷ [])

abbrev rgb_image : ImageData
rgb_image = record {
  width = pos 2;
  height = pos 1;
  rowstride = pos 0;
  has_alpha = false;
  bits_per_sample = pos 8;
  channels = pos 3;
  bytes = 1 ∷ 2 ∷ 3 ∷ 4 ∷ 5 ∷ 6 ∷ [];
}

abbrev rgba_image : ImageData
rgba_image = record {
  width = pos 2;
  height = pos 1;
  rowstride = pos 8;
  has_alpha = true;
  bits_per_sample = pos 8;
  channels = pos 4;
  bytes = 1 ∷ 2 ∷ 3 ∷ 255 ∷ 4 ∷ 5 ∷ 6 ∷ 255 ∷ [];
}

rgb_normalized : normalize_image_data false rgb_image ≡ some rgba_image
unfolding normalize_image_data normalized normalized_rowstride stride_for fitting checked_mul
    bytes_per_pixel expand_rgb_to_rgba expand_at expand_rows expand_row expand_rgb_row_scalar
rgb_normalized = refl

narrow : 2 ≤ max_image_dimension
narrow = omega arith

flat : 1 ≤ max_image_dimension
flat = omega arith

normalize_image_data-usable_example : is_image_data_usable rgba_image ≡ true
normalize_image_data-usable_example =
    normalize_image_data-usable false rgb_image rgba_image rgb_normalized narrow flat

sanitize_log_value-is_plain_example :
    (all_of is_plain (sanitize_log_value (97 ∷ 10 ∷ 8238 ∷ 98 ∷ []) 2) ≡ true)
    × (length (sanitize_log_value (97 ∷ 10 ∷ 8238 ∷ 98 ∷ []) 2) ≤ 2 + 3)
sanitize_log_value-is_plain_example = sanitize_log_value-is_plain (97 ∷ 10 ∷ 8238 ∷ 98 ∷ []) 2

base_within : 250 ≤ 5000
base_within = omega arith

abbrev earlier_draws : List ℕ
earlier_draws = 11 ∷ 500 ∷ 90 ∷ []

next_sleep-after_example :
    (next_sleep 7 (after_sleeps earlier_draws (new_backoff 250 5000))).0
    ≡ min (min (250 * 2 ^ length earlier_draws) 5000 + jitter_duration backoff_jitter_ms 7) 5000
next_sleep-after_example = next_sleep-after earlier_draws 7 250 5000 base_within

-- The daemon's signals and inhibitors.
abbrev quiet : ControlState
quiet = record { dnd_enabled = true; history_count = 3; inhibited = false; inhibitor_count = 0 }

abbrev unheard : Emitted
unheard = record { last_emitted_state = none; last_emitted_popup_gate = none }

emit_state_changed-heard_example :
    (let r = emit_state_changed quiet true true unheard in
      (heard r.0 unheard ≡ r.1)
      × (r.1.last_emitted_state ≡ some quiet)
      × (r.1.last_emitted_popup_gate
          ≡ some (record { dnd_enabled = quiet.dnd_enabled; inhibited = quiet.inhibited })))
emit_state_changed-heard_example = emit_state_changed-heard quiet unheard

busy_few : length busy.inhibitors ≤ max_active_inhibitors
busy_few = omega arith

apply_inhibit-limit_example :
    length (apply_inhibit (λ t. t) true (some bus_one) (97 ∷ []) 3 busy).0.inhibitors
    ≤ max_active_inhibitors
apply_inhibit-limit_example =
    apply_inhibit-limit (λ t. t) true (some bus_one) (97 ∷ []) 3 busy busy-CacheValid busy_few

abbrev view : ℕ → ℕ → NotificationView
view id urgency = record (to_view (note id bus_one 10)) { urgency = urgency }

-- Notification 1 has a popup already, and so has 9, which is gone.
abbrev ui : UiState
ui = record {
  popups =
      (1, record { notification = view 1 1; materialized = true })
      ∷ (9, record { notification = view 9 1; materialized = true })
      ∷ [];
  popup_order = 9 ∷ 1 ∷ [];
  visible_popups = 9 ∷ 1 ∷ [];
  control_state = record {
    dnd_enabled = false;
    history_count = 0;
    inhibited = false;
    inhibitor_count = 0;
  };
  max_visible = 2;
}

desired-Distinct :
    Distinct (map id_of (desired_seed_popups (view 2 1 ∷ view 1 1 ∷ []) ui.control_state))
unfolding desired_seed_popups popup_allowed_by_state elem to_view
desired-Distinct = (refl, (refl, tt))

two_known : elem 2 ui.popup_order ≡ false → shown 2 ui.popups ≡ none
unfolding shown lookup
two_known = λ h. refl

reconcile_seed-shown_example :
    shown 2 (reconcile_seed ui (view 2 1 ∷ view 1 1 ∷ [])).popups
    ≡ find_view 2 (desired_seed_popups (view 2 1 ∷ view 1 1 ∷ []) ui.control_state)
reconcile_seed-shown_example =
    reconcile_seed-shown ui (view 2 1 ∷ view 1 1 ∷ []) 2 desired-Distinct two_known

-- Two rows change places, one leaves, a new one comes between them, and one has no entry.
abbrev has_entry : ℕ → Bool
has_entry id = leb id 4

shown_stack-desired_example :
    shown_stack has_entry (1 ∷ 2 ∷ 3 ∷ []) (3 ∷ 5 ∷ 4 ∷ 1 ∷ [])
    ≡ keep_if has_entry (3 ∷ 5 ∷ 4 ∷ 1 ∷ [])
unfolding elem
shown_stack-desired_example =
    shown_stack-desired has_entry (1 ∷ 2 ∷ 3 ∷ []) (3 ∷ 5 ∷ 4 ∷ 1 ∷ []) (refl, (refl, (refl, tt)))
      (refl, (refl, (refl, (refl, tt))))
