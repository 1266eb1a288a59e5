-- ===== src/Texts/Clean.antt =====
-- What the sanitizers let through.
use mathlib.Core.List.{reverse_aux}
use unix_notis.Prelude.{
  Bool, Bool-cases, [], arith, false, inl, inr, length, length-append, not, refl, reverse, suc,
  true, zero, ℕ, ◌&&◌, ◌++◌, ◌+◌, ◌==◌, ◌||◌, ◌∙◌, ◌∷◌, ◌≡◌, ◌≤◌,
}
use unix_notis.Texts.{
  Chars, is_bidi_control, is_control, log_char, log_chars, sanitize_display_text_with,
  sanitize_log_value, shown_char, trim, trim_start,
}

abbrev pub all_of : (ℕ → Bool) → Chars → Bool
all_of p [] = true
all_of p (c ∷ cs) = p c && all_of p cs

-- Neither a control character nor one that changes the direction of a text.
unfoldable pub is_plain : ℕ → Bool
is_plain c = not (is_control c) && not (is_bidi_control c)

-- A newline counts as well, where newlines are kept.
unfoldable pub is_shown : Bool → ℕ → Bool
is_shown keep_newlines c = is_plain c || c == 10 && keep_newlines

shown_char-is_shown :
    (keep_newlines : Bool) (c : ℕ)
    → is_bidi_control c ≡ false
    → is_shown keep_newlines (shown_char keep_newlines c) ≡ true
unfolding is_shown is_plain shown_char is_control is_bidi_control
shown_char-is_shown keep_newlines c h = ground (arith, h)

-- A sanitized text holds no character that changes the direction of a text, and no control character
-- but the newlines that are kept.
pub sanitize_display_text_with-is_shown :
    (value : Chars) (keep_newlines : Bool)
    → all_of (is_shown keep_newlines) (sanitize_display_text_with value keep_newlines) ≡ true
unfolding sanitize_display_text_with
sanitize_display_text_with-is_shown [] k = refl
sanitize_display_text_with-is_shown (c ∷ cs) k = elim (Bool-cases (is_bidi_control c)) [
  | inl b ↦ rw b (sanitize_display_text_with-is_shown cs k)
  | inr b ↦ rw (b, shown_char-is_shown k c b, sanitize_display_text_with-is_shown cs k) refl
]

shown_kept :
    (keep_newlines : Bool) (c : ℕ)
    → is_shown keep_newlines c ≡ true
    → (is_bidi_control c ≡ false) × (shown_char keep_newlines c ≡ c)
unfolding is_shown is_plain shown_char is_control is_bidi_control
shown_kept k c h = (ground (arith, h), ground (arith, h))

-- A text of characters that may be shown stays as it is.
pub sanitize_display_text_with-fixed :
    (value : Chars) (keep_newlines : Bool)
    → all_of (is_shown keep_newlines) value ≡ true
    → sanitize_display_text_with value keep_newlines ≡ value
unfolding sanitize_display_text_with
sanitize_display_text_with-fixed [] k h = refl
sanitize_display_text_with-fixed (c ∷ cs) k h =
    let (b, e) = shown_kept k c (ground (arith, h)) in
    rw (b, e, sanitize_display_text_with-fixed cs k (ground (arith, h))) refl

shown_twice :
    (c : ℕ) (j k : Bool)
    → is_bidi_control c ≡ false
    → (is_bidi_control (shown_char j c) ≡ false)
      × (shown_char k (shown_char j c) ≡ shown_char (j && k) c)
unfolding shown_char is_control is_bidi_control
shown_twice c j k h = (ground (arith, h), ground (arith, h))

-- Sanitizing twice is sanitizing once, and newlines are kept if both keep them.
pub sanitize_display_text_with-twice :
    (value : Chars) (first second : Bool)
    → sanitize_display_text_with (sanitize_display_text_with value first) second
      ≡ sanitize_display_text_with value (first && second)
unfolding sanitize_display_text_with
sanitize_display_text_with-twice [] j k = refl
sanitize_display_text_with-twice (c ∷ cs) j k = elim (Bool-cases (is_bidi_control c)) [
  | inl b ↦ rw b (sanitize_display_text_with-twice cs j k)
  | inr b ↦
      rw
        (
          b,
          (shown_twice c j k b).0,
          (shown_twice c j k b).1,
          sanitize_display_text_with-twice cs j k,
        )
        refl
]

-- The characters of a log line.
log_chars-plain : (room : ℕ) (cs : Chars) → all_of is_plain (log_chars room cs).0 ≡ true
unfolding log_chars
log_chars-plain zero cs = refl
log_chars-plain (suc room) [] = refl
log_chars-plain (suc room) (c ∷ cs) = elim (Bool-cases (is_bidi_control c)) [
  | inl b ↦ rw b (log_chars-plain (suc room) cs)
  | inr b ↦
      let p : is_plain (log_char c) ≡ true =
        unfold is_plain log_char is_control is_bidi_control in (ground (arith, b)) in
      rw (b, p, log_chars-plain room cs) refl
]

log_chars-length : (room : ℕ) (cs : Chars) → length (log_chars room cs).0 ≤ room
unfolding log_chars
log_chars-length zero cs = omega arith
log_chars-length (suc room) [] = omega arith
log_chars-length (suc room) (c ∷ cs) = elim (Bool-cases (is_bidi_control c)) [
  | inl b ↦ rw b (log_chars-length (suc room) cs)
  | inr b ↦ rw b (omega (arith, log_chars-length room cs))
]

all_of-append : (p : ℕ → Bool) (xs ys : Chars) → all_of p (xs ++ ys) ≡ (all_of p xs && all_of p ys)
all_of-append p [] ys = refl
all_of-append p (x ∷ xs) ys = ground (arith, all_of-append p xs ys)

all_of-trim_start :
    (p : ℕ → Bool) (xs : Chars) → all_of p xs ≡ true → all_of p (trim_start xs) ≡ true
unfolding trim_start
all_of-trim_start p [] h = refl
all_of-trim_start p (x ∷ xs) h = ground (arith, h, all_of-trim_start p xs)

length-trim_start : (xs : Chars) → length (trim_start xs) ≤ length xs
unfolding trim_start
length-trim_start [] = omega arith
length-trim_start (x ∷ xs) = ground (arith, length-trim_start xs)

all_of-reverse_aux :
    (p : ℕ → Bool) (xs acc : Chars)
    → all_of p xs ≡ true
    → all_of p acc ≡ true
    → all_of p (reverse_aux xs acc) ≡ true
all_of-reverse_aux p [] acc h g = g
all_of-reverse_aux p (x ∷ xs) acc h g =
    all_of-reverse_aux p xs (x ∷ acc) (ground (arith, h)) (ground (arith, h, g))

length-reverse_aux : (xs acc : Chars) → length (reverse_aux xs acc) ≡ length xs + length acc
length-reverse_aux [] acc = omega arith
length-reverse_aux (x ∷ xs) acc = omega (arith, length-reverse_aux xs (x ∷ acc))

trim-plain : (xs : Chars) → all_of is_plain xs ≡ true → all_of is_plain (trim xs) ≡ true
unfolding trim
trim-plain xs h =
    let a = all_of-trim_start is_plain xs h in
    let b = all_of-reverse_aux is_plain (trim_start xs) [] a refl in
    all_of-reverse_aux is_plain (trim_start (reverse (trim_start xs))) []
      (all_of-trim_start is_plain (reverse (trim_start xs)) b) refl

length-trim : (xs : Chars) → length (trim xs) ≤ length xs
unfolding trim
length-trim xs =
    let back = trim_start (reverse (trim_start xs)) in
    omega (
      arith,
      length-reverse_aux back [],
      length-trim_start (reverse (trim_start xs)),
      length-reverse_aux (trim_start xs) [],
      length-trim_start xs,
    )

-- A log line is no longer than the limit and three dots, and holds neither a control character nor
-- one that changes the direction of a text: so it is a single line.
pub sanitize_log_value-is_plain :
    (value : Chars) (max_len : ℕ)
    → (all_of is_plain (sanitize_log_value value max_len) ≡ true)
      × (length (sanitize_log_value value max_len) ≤ max_len + 3)
unfolding sanitize_log_value
sanitize_log_value-is_plain value zero = (refl, omega arith)
sanitize_log_value-is_plain value (suc n) =
    let cleaned = log_chars (suc n) value in
    let plain = trim-plain cleaned.0 (log_chars-plain (suc n) value) in
    let short : length (trim cleaned.0) ≤ suc n =
      omega (arith, length-trim cleaned.0, log_chars-length (suc n) value) in
    let dots : all_of is_plain (46 ∷ 46 ∷ 46 ∷ []) ≡ true =
      unfold is_plain is_control is_bidi_control in (refl) in
    elim (Bool-cases cleaned.1) [
      | inl cut ↦ rw cut (
        all_of-append is_plain (trim cleaned.0) (46 ∷ 46 ∷ 46 ∷ []) ∙ rw (plain, dots) refl,
        omega (arith, short, length-append (trim cleaned.0) (46 ∷ 46 ∷ 46 ∷ [])),
      )
      | inr whole ↦ rw whole (plain, omega (arith, short))
    ]
