-- ===== src/Store/Identity/Ownership.antt =====
-- Who owns a notification.
use unix_notis.Prelude.{
  nat_eq, text_beq_iff, ℕ, ◌≡◌, refl, ◌↔◌, ◌⊎◌, inl, inr, Bool, true, false, ◌&&◌, Option, none,
  some, arith, Text, ==_iff, if◌then◌else◌,
}
use unix_notis.Model.{Notification}
use unix_notis.Store.Identity.{notification_is_owned_by, same_text, same_number}

-- Both are known, and the same.
abbrev pub SameKnown {ℓ} : {A : Type ℓ} → Option A → Option A → Type ℓ
SameKnown {A} a b = (x : A) × (a ≡ some x) × (b ≡ some x)

same_text_iff : (a b : Option Text) → (same_text a b ≡ true) ↔ SameKnown a b
same_text_iff none b = (λ h. cc, λ h. cc (h.1))
same_text_iff (some x) none = (λ h. cc, λ h. cc (h.2))
same_text_iff (some x) (some y) = (
  λ h. (x, refl, ground (arith, (text_beq_iff x y).0 h)),
  λ h. (text_beq_iff x y).1 (ground (arith, h.1, h.2)),
)

same_number_iff : (a b : Option ℕ) → (same_number a b ≡ true) ↔ SameKnown a b
same_number_iff none b = (λ h. cc, λ h. cc (h.1))
same_number_iff (some x) none = (λ h. cc, λ h. cc (h.2))
same_number_iff (some x) (some y) = (
  λ h. (x, refl, ground (arith, (==_iff x y).0 h)),
  λ h. (==_iff x y).1 (ground (arith, h.1, h.2)),
)

either_proof :
    (a b c : Bool)
    → ((if a then true else if b && c then true else false) ≡ true)
      ↔ ((a ≡ true) ⊎ ((b ≡ true) × (c ≡ true)))
either_proof a b c = (λ h. ground arith, λ h. ground arith)

-- A caller owns a notification exactly if both bus names are known and equal, or if both process
-- ids and both process start times are known and equal: a process id alone proves nothing.
pub notification_is_owned_by_iff :
    {H : Type 0} (n : Notification H) (sender : Option Text) (pid start : Option ℕ)
    → (notification_is_owned_by n sender pid start ≡ true) ↔ (
        SameKnown sender n.sender_name
        ⊎ (SameKnown pid n.sender_pid × SameKnown start n.sender_start_time))
unfolding notification_is_owned_by
notification_is_owned_by_iff n sender pid start =
    let names = same_text_iff sender n.sender_name in
    let pids = same_number_iff pid n.sender_pid in
    let starts = same_number_iff start n.sender_start_time in
    let either =
      either_proof (same_text sender n.sender_name) (same_number pid n.sender_pid)
        (same_number start n.sender_start_time) in
    (
      λ h. elim (either.0 h) [
        | inl name ↦ inl (names.0 name)
        | inr (p, t) ↦ inr (pids.0 p, starts.0 t)
      ],
      λ h.
          either.1
            (elim h [ inl name ↦ inl (names.1 name) | inr (p, t) ↦ inr (pids.1 p, starts.1 t) ]),
    )
