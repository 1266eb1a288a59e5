-- ===== src/Daemon/Announce.antt =====
-- What listeners are told of the state: emit_state_changed and should_emit_cached of crates/
-- unixnotis-daemon/src/daemon.rs, and clear_all_signal_plan of daemon/control/clear.rs. Whether a signal
-- can be sent is an argument.
use unix_notis.Prelude.{
  Bool, Bool-cases, List, Option, [], ap, arith, false, if◌then◌else◌, inl, inr, length, none, not,
  refl, some, sym, true, ℕ, ◌%◌, ◌&&◌, ◌==◌, ◌^◌, ◌∷◌, ◌≡◌,
}
use unix_notis.Model.Control.{ControlState, PopupGateState}
use unix_notis.History.{len}
use unix_notis.Store.{NotificationStore}

abbrev bool_beq : Bool → Bool → Bool
bool_beq true b = b
bool_beq false b = not b

unfoldable pub state_beq : ControlState → ControlState → Bool
state_beq a b =
    bool_beq a.dnd_enabled b.dnd_enabled
    && a.history_count == b.history_count
    && bool_beq a.inhibited b.inhibited
    && a.inhibitor_count == b.inhibitor_count

unfoldable pub gate_beq : PopupGateState → PopupGateState → Bool
gate_beq a b = bool_beq a.dnd_enabled b.dnd_enabled && bool_beq a.inhibited b.inhibited

-- Whether to emit, and the cache after it.
unfoldable pub should_emit_cached : {T : Type 0} → (T → T → Bool) → Option T → T → Bool × Option T
should_emit_cached same none value = (true, some value)
should_emit_cached same (some previous) value =
    if same previous value then (false, some previous) else (true, some value)

pub data Signal : Type 0 where
  state_changed : ControlState → Signal
  popup_gate_changed : PopupGateState → Signal

pub record Emitted : Type 0 where
  pub last_emitted_state : Option ControlState
  pub last_emitted_popup_gate : Option PopupGateState

unfoldable pub control_state : {H : Type 0} → NotificationStore H → ControlState
control_state s = record {
  dnd_enabled = s.dnd_enabled;
  history_count = len s.history % 2 ^ 32;
  inhibited = s.inhibited;
  inhibitor_count = s.inhibitor_count;
}

-- The signals that are sent; the first one that cannot be sent ends the call.
unfoldable pub sent_signals :
    Bool → Bool → Bool → Bool → ControlState → PopupGateState → List Signal
sent_signals emit_state emit_gate state_sent gate_sent state gate =
    let gates = if emit_gate && gate_sent then popup_gate_changed gate ∷ [] else [] in
    if emit_state then (if state_sent then state_changed state ∷ gates else []) else gates

unfoldable pub emit_state_changed : ControlState → Bool → Bool → Emitted → List Signal × Emitted
emit_state_changed state state_sent gate_sent e =
    let gate : PopupGateState = record {
      dnd_enabled = state.dnd_enabled;
      inhibited = state.inhibited;
    } in
    let for_state = should_emit_cached state_beq e.last_emitted_state state in
    let for_gate = should_emit_cached gate_beq e.last_emitted_popup_gate gate in
    (
      sent_signals for_state.0 for_gate.0 state_sent gate_sent state gate,
      record { last_emitted_state = for_state.1; last_emitted_popup_gate = for_gate.1 },
    )

pub record ClearAllSignalPlan : Type 0 where
  pub emit_close_signals : Bool
  pub emit_snapshot_invalidated : Bool
  pub emit_state_changed : Bool

unfoldable pub clear_all_signal_plan : List ℕ → ClearAllSignalPlan
clear_all_signal_plan ids = record {
  emit_close_signals = not (length ids == 0);
  emit_snapshot_invalidated = true;
  emit_state_changed = true;
}

-- What a listener that heard every signal knows: the last of each kind.
unfoldable pub heard : List Signal → Emitted → Emitted
heard [] known = known
heard (state_changed state ∷ rest) known =
    heard rest (record known { last_emitted_state = some state })
heard (popup_gate_changed gate ∷ rest) known =
    heard rest (record known { last_emitted_popup_gate = some gate })

bool_beq_iff : (a b : Bool) → bool_beq a b ≡ true → a ≡ b
bool_beq_iff true b h = sym h
bool_beq_iff false true h = cc
bool_beq_iff false false h = refl

state_beq-eq : (a b : ControlState) → state_beq a b ≡ true → a ≡ b
unfolding state_beq
state_beq-eq a b h =
    let d = bool_beq_iff a.dnd_enabled b.dnd_enabled (ground (arith, h)) in
    let i = bool_beq_iff a.inhibited b.inhibited (ground (arith, h)) in
    let n : a.history_count ≡ b.history_count = ground (arith, h) in
    let c : a.inhibitor_count ≡ b.inhibitor_count = ground (arith, h) in cc (d, i, n, c)

gate_beq-eq : (a b : PopupGateState) → gate_beq a b ≡ true → a ≡ b
unfolding gate_beq
gate_beq-eq a b h =
    let d = bool_beq_iff a.dnd_enabled b.dnd_enabled (ground (arith, h)) in
    let i = bool_beq_iff a.inhibited b.inhibited (ground (arith, h)) in cc (d, i)

cached :
    {T : Type 0} (same : T → T → Bool) (last : Option T) (value : T)
    → ((a b : T) → same a b ≡ true → a ≡ b)
    → (should_emit_cached same last value).1 ≡ some value
unfolding should_emit_cached
cached same none value eq = refl
cached same (some previous) value eq = elim (Bool-cases (same previous value)) [
  | inl h ↦ rw h (ap (λ x. some x) (eq previous value h))
  | inr h ↦ rw h refl
]

unchanged :
    {T : Type 0} (same : T → T → Bool) (last : Option T) (value : T)
    → (should_emit_cached same last value).0 ≡ false
    → (should_emit_cached same last value).1 ≡ last
unfolding should_emit_cached
unchanged same none value h = cc
unchanged same (some previous) value h = elim (Bool-cases (same previous value)) [
  | inl e ↦ rw e refl
  | inr e ↦ absurd (cc (rw (should_emit_cached, e) at h))
]

-- When its signals can be sent, a listener that heard the ones before knows the state and the popup
-- gate after the call: a signal is left out only where it would tell nothing new.
pub emit_state_changed-heard :
    (state : ControlState) (e : Emitted)
    → (let r = emit_state_changed state true true e in
        (heard r.0 e ≡ r.1)
        × (r.1.last_emitted_state ≡ some state)
        × (r.1.last_emitted_popup_gate
            ≡ some (record { dnd_enabled = state.dnd_enabled; inhibited = state.inhibited })))
unfolding emit_state_changed sent_signals heard
emit_state_changed-heard state e =
    let gate : PopupGateState = record {
      dnd_enabled = state.dnd_enabled;
      inhibited = state.inhibited;
    } in
    let new_state = should_emit_cached state_beq e.last_emitted_state state in
    let new_gate = should_emit_cached gate_beq e.last_emitted_popup_gate gate in
    let cs : new_state.1 ≡ some state = cached state_beq e.last_emitted_state state state_beq-eq in
    let cg : new_gate.1 ≡ some gate = cached gate_beq e.last_emitted_popup_gate gate gate_beq-eq in
    (
      elim (Bool-cases new_state.0) [
        | inl s ↦ elim (Bool-cases new_gate.0) [
          | inl g ↦ rw (s, g, cs, cg) refl
          | inr g ↦ rw (s, g, cs, unchanged gate_beq e.last_emitted_popup_gate gate g) refl
        ]
        | inr s ↦ elim (Bool-cases new_gate.0) [
          | inl g ↦ rw (s, g, cg, unchanged state_beq e.last_emitted_state state s) refl
          | inr g ↦
              rw
                (
                  s,
                  g,
                  unchanged state_beq e.last_emitted_state state s,
                  unchanged gate_beq e.last_emitted_popup_gate gate g,
                )
                refl
        ]
      ],
      cs,
      cg,
    )

state_beq_refl : (s : ControlState) → state_beq s s ≡ true
unfolding state_beq
state_beq_refl s = ground arith

gate_beq_refl : (g : PopupGateState) → gate_beq g g ≡ true
unfolding gate_beq
gate_beq_refl g = ground arith

-- A call right after another one with the same state sends nothing: also not a signal that the first
-- call could not send.
emit_state_changed-again :
    (state : ControlState) (e : Emitted) (state_sent gate_sent : Bool)
    → (emit_state_changed state true true (emit_state_changed state state_sent gate_sent e).1).0
      ≡ []
unfolding emit_state_changed sent_signals should_emit_cached
emit_state_changed-again state e state_sent gate_sent =
    rw
      (
        cached state_beq e.last_emitted_state state state_beq-eq,
        cached gate_beq e.last_emitted_popup_gate _ gate_beq-eq,
        state_beq_refl state,
        gate_beq_refl _,
      )
      refl
