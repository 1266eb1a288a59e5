-- ===== src/Texts.antt =====
-- Texts that are shown or logged: the sanitizers and is_simple_command of crates/unixnotis-core/src/
-- util.rs. A text is the list of its characters, and a character is its code point.
pub mod Clean
use unix_notis.Prelude.{
  Bool, List, [], any, false, if◌then◌else◌, leb, nat_eq, not, reverse, suc, true, zero, ℕ, ◌&&◌,
  ◌++◌, ◌==◌, ◌||◌, ◌∷◌,
}
use unix_notis.Prelude.Maps.{elem}

abbrev pub Chars : Type 0
Chars = List ℕ

abbrev pub between : ℕ → ℕ → ℕ → Bool
between low high c = leb low c && leb c high

-- The general category Cc, and the property White_Space.
unfoldable pub is_control : ℕ → Bool
is_control c = leb c 31 || between 127 159 c

unfoldable pub is_whitespace : ℕ → Bool
is_whitespace c =
    between 9 13 c
    || c == 32
    || c == 133
    || c == 160
    || c == 5760
    || between 8192 8202 c
    || between 8232 8233 c
    || c == 8239
    || c == 8287
    || c == 12288

unfoldable pub is_bidi_control : ℕ → Bool
is_bidi_control c = c == 1564 || between 8206 8207 c || between 8234 8238 c || between 8294 8297 c

-- A character that is kept: a newline where newlines are kept, a blank for a control character.
unfoldable pub shown_char : Bool → ℕ → ℕ
shown_char keep_newlines c =
    if c == 10 && keep_newlines
    then 10
    else if c == 9
    then 32
    else if c == 13
    then 32
    else if is_control c
    then 32
    else c

unfoldable pub sanitize_display_text_with : Chars → Bool → Chars
sanitize_display_text_with [] keep_newlines = []
sanitize_display_text_with (c ∷ cs) keep_newlines =
    let rest = sanitize_display_text_with cs keep_newlines in
    if is_bidi_control c then rest else shown_char keep_newlines c ∷ rest

unfoldable pub sanitize_display_text : Chars → Chars
sanitize_display_text value = sanitize_display_text_with value true

unfoldable pub sanitize_inline_display_text : Chars → Chars
sanitize_inline_display_text value = sanitize_display_text_with value false

-- `str::trim`.
unfoldable pub trim_start : Chars → Chars
trim_start [] = []
trim_start (c ∷ cs) = if is_whitespace c then trim_start cs else c ∷ cs

unfoldable pub trim : Chars → Chars
trim cs = reverse (trim_start (reverse (trim_start cs)))

unfoldable pub log_char : ℕ → ℕ
log_char c = if c == 10 || c == 13 || is_control c then 32 else c

-- The loop, with the room that is left: the characters it keeps, and whether it stopped for want of
-- room.
unfoldable pub log_chars : ℕ → Chars → Chars × Bool
log_chars zero cs = ([], true)
log_chars (suc room) [] = ([], false)
log_chars (suc room) (c ∷ cs) =
    let skipped = log_chars (suc room) cs in
    let rest = log_chars room cs in
    if is_bidi_control c then skipped else (log_char c ∷ rest.0, rest.1)

unfoldable pub sanitize_log_value : Chars → ℕ → Chars
sanitize_log_value value zero = []
sanitize_log_value value (suc max_len) =
    let cleaned = log_chars (suc max_len) value in
    if cleaned.1 then trim cleaned.0 ++ 46 ∷ 46 ∷ 46 ∷ [] else trim cleaned.0

unfoldable pub log_limit_for : Bool → ℕ
log_limit_for diagnostic = if diagnostic then 512 else 160

abbrev pub shell_meta_chars : Chars
shell_meta_chars = 124 ∷ 38 ∷ 59 ∷ 60 ∷ 62 ∷ 36 ∷ 96 ∷ 40 ∷ 41 ∷ 123 ∷ 125 ∷ 91 ∷ 93 ∷ 42 ∷ 63 ∷ []

-- The first word, between white space.
unfoldable pub take_word : Chars → Chars
take_word [] = []
take_word (c ∷ cs) = if is_whitespace c then [] else c ∷ take_word cs

unfoldable pub first_word : Chars → Chars
first_word cs = take_word (trim_start cs)

abbrev pub starts_with_slash : Chars → Bool
starts_with_slash [] = false
starts_with_slash (c ∷ cs) = c == 47

abbrev pub starts_with_dot_slash : Chars → Bool
starts_with_dot_slash [] = false
starts_with_dot_slash (c ∷ cs) = c == 46 && starts_with_slash cs

unfoldable pub needs_shell : ℕ → Bool
needs_shell c = elem c shell_meta_chars || c == 126 || c == 10 || c == 13

unfoldable pub is_simple_command : Chars → Bool
is_simple_command cmd =
    let first = first_word cmd in
    if any needs_shell cmd
    then false
    else if elem 61 first && not (starts_with_slash first) && not (starts_with_dot_slash first)
    then false
    else true
