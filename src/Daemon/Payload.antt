-- ===== src/Daemon/Payload.antt =====
-- Bounds on untrusted text: truncate_utf8_bytes of crates/unixnotis-daemon/src/daemon/notifications/
-- payload.rs (and of daemon/control/sanitize.rs, which has the same function). A text is its UTF-8
-- bytes.
use unix_notis.Prelude.{
  take_all, ==_iff, inr, inl, ℕ, zero, suc, ◌≤◌, ◌≡◌, refl, sym, ◌∙◌, Bool, true, not, ◌&&◌, [],
  ◌∷◌, arith, length, take, leb, ltb, ◌==◌, Text, length-take, Bool-cases, if◌then◌else◌,
}

-- A byte that continues a character: 10xxxxxx.
abbrev pub continues : ℕ → Bool
continues byte = leb 128 byte && ltb byte 192

-- `str::is_char_boundary`.
unfoldable pub is_char_boundary : Text → ℕ → Bool
is_char_boundary [] i = i == 0
is_char_boundary (b ∷ bs) zero = true
is_char_boundary (b ∷ []) (suc i) = i == 0
is_char_boundary (b ∷ c ∷ bs) (suc zero) = not (continues c)
is_char_boundary (b ∷ c ∷ bs) (suc (suc i)) = is_char_boundary (c ∷ bs) (suc i)

-- The loop that moves `end` back to a boundary.
unfoldable pub boundary_before : Text → ℕ → ℕ
boundary_before value zero = zero
boundary_before value (suc end) =
    let before = boundary_before value end in
    if is_char_boundary value (suc end) then suc end else before

unfoldable pub truncate_utf8_bytes : Text → ℕ → Text
truncate_utf8_bytes value max_bytes =
    if max_bytes == 0
    then []
    else if leb (length value) max_bytes
    then value
    else take (boundary_before value max_bytes) value

boundary_before-le : (value : Text) (end : ℕ) → boundary_before value end ≤ end
unfolding boundary_before
boundary_before-le value zero = omega arith
boundary_before-le value (suc end) = ground (arith, boundary_before-le value end)

start_boundary : (value : Text) → is_char_boundary value 0 ≡ true
unfolding is_char_boundary
start_boundary [] = refl
start_boundary (b ∷ bs) = refl

end_boundary : (value : Text) → is_char_boundary value (length value) ≡ true
unfolding is_char_boundary
end_boundary [] = refl
end_boundary (b ∷ []) = refl
end_boundary (b ∷ c ∷ bs) = end_boundary (c ∷ bs)

boundary_before-boundary :
    (value : Text) (end : ℕ) → is_char_boundary value (boundary_before value end) ≡ true
unfolding boundary_before
boundary_before-boundary value zero = start_boundary value
boundary_before-boundary value (suc end) = elim (Bool-cases (is_char_boundary value (suc end))) [
  | inl here ↦ rw here here
  | inr back ↦ rw back (boundary_before-boundary value end)
]

boundary_before-largest :
    (value : Text) (end i : ℕ)
    → is_char_boundary value i ≡ true
    → i ≤ end
    → i ≤ boundary_before value end
unfolding boundary_before
boundary_before-largest value zero i h le = omega (arith, le)
boundary_before-largest value (suc end) i h le =
    elim (Bool-cases (is_char_boundary value (suc end))) [
      | inl here ↦ rw here le
      | inr back ↦ rw back (elim (Bool-cases (i == suc end)) [
        | inl same ↦ cc (back, h, (==_iff i (suc end)).0 same)
        | inr other ↦ boundary_before-largest value end i h (ground (arith, le, other))
      ])
    ]

-- Truncation never passes the limit, gives a beginning of the text that ends between two
-- characters, and is the longest such beginning within the limit.
pub truncate_utf8_bytes_lem :
    (value : Text) (max_bytes i : ℕ)
    → is_char_boundary value i ≡ true
    → i ≤ max_bytes
    → i ≤ length value
    → let t = truncate_utf8_bytes value max_bytes in
      (length t ≤ max_bytes)
      × (t ≡ take (length t) value)
      × (is_char_boundary value (length t) ≡ true)
      × (i ≤ length t)
unfolding truncate_utf8_bytes
truncate_utf8_bytes_lem value max_bytes i h low within = elim (Bool-cases (max_bytes == 0)) [
  | inl nothing ↦ rw nothing (omega arith, refl, start_boundary value, ground (arith, nothing, low))
  | inr some_room ↦ elim (Bool-cases (leb (length value) max_bytes)) [
    | inl fits ↦
        rw some_room
          (rw fits (ground (arith, fits), sym (take_all value), end_boundary value, within))
    | inr long ↦
        let end = boundary_before value max_bytes in
        let small = boundary_before-le value max_bytes in
        let exact : length (take end value) ≡ end =
          length-take end value ∙ ground (arith, long, small) in
        rw some_room (
          rw long (
            rw exact (
              small,
              refl,
              boundary_before-boundary value max_bytes,
              boundary_before-largest value max_bytes i h low,
            )))
  ]
]
