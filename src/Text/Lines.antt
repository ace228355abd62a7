-- ===== src/Text/Lines.antt =====
-- `ChopLine` and `getStringWithEscapes`.
use cpp_socket_programming.Prelude.{
  ℕ, ◌+◌, ◌<◌, ◌≡◌, refl, ap, ◌∙◌, ◌≢◌, ◌⊎◌, [], ◌∷◌, ◌++◌, none, some, arith, ◌==◌, ltb,
  if◌then◌else◌, length, length-append,
}
use cpp_socket_programming.Text.{Text, c_string, chop, chop_line, escape_char, escape}

-- No byte of the text is this one.
abbrev pub Without : ℕ → Text → Type 0
Without x [] = Unit {0}
Without x (c ∷ cs) = (c ≢ x) × Without x cs

pub c_string-whole : (s : Text) → Without 0 s → c_string s ≡ s
unfolding c_string
c_string-whole [] h = refl
c_string-whole (c ∷ cs) h = ground (arith, c_string-whole cs)

chop-key : (key value : Text) → Without b':' key → chop (key ++ b':' ∷ value) ≡ some (key, value)
unfolding chop
chop-key [] value h = refl
chop-key (c ∷ key) value h = ground (arith, chop-key key value)

chop-none : (s : Text) → Without b':' s → chop s ≡ none
unfolding chop
chop-none [] h = refl
chop-none (c ∷ s) h = ground (arith, chop-none s)

pub Without-append : (x : ℕ) (s t : Text) → Without x s → Without x t → Without x (s ++ t)
Without-append x [] t h k = k
Without-append x (c ∷ s) t h k = (h.0, Without-append x s t h.1 k)

-- A header line without NUL that fits into the buffer is cut at its first colon: the key before it
-- and everything behind it, later colons included.
pub chop_line-key :
    (key value : Text)
    → Without b':' key
    → Without 0 key
    → Without 0 value
    → length key + length value < 4095
    → chop_line (key ++ b':' ∷ value) ≡ some (key, value)
unfolding chop_line
chop_line-key key value colon zk zv fits =
    let whole : c_string (key ++ b':' ∷ value) ≡ key ++ b':' ∷ value =
      c_string-whole (key ++ b':' ∷ value)
        (Without-append 0 key (b':' ∷ value) zk (λ e. absurd (omega arith), zv)) in
    rw (whole, chop-key key value colon) (ground (arith, length-append key (b':' ∷ value)))

-- A line without colon gives two empty texts, and one that is too long overflows the buffer.
pub chop_line-none :
    (s : Text)
    → Without b':' s
    → Without 0 s
    → chop_line s ≡ (if ltb (length s) 4096 then some ([], []) else none)
unfolding chop_line
chop_line-none s colon z = rw (c_string-whole s z, chop-none s colon)

-- What an escaped text stands for; any other byte behind a backslash is kept as it is.
abbrev unescape : Text → Text
unescape [] = []
unescape (c ∷ []) = c ∷ []
unescape (c ∷ e ∷ cs) =
    let rest = unescape cs in
    let kept = unescape (e ∷ cs) in
    if c == 92
    then (if e == b'n' then 10 else if e == b'r' then 13 else if e == b't' then 9 else e) ∷ rest
    else c ∷ kept

unescape-plain : (c : ℕ) (s : Text) → c ≢ 92 → unescape (c ∷ s) ≡ c ∷ unescape s
unescape-plain c [] h = refl
unescape-plain c (e ∷ s) h = ground arith

unescape-char : (c : ℕ) (s : Text) → unescape (escape_char c ++ s) ≡ c ∷ unescape s
unfolding escape_char
unescape-char c s = ground (arith, unescape-plain c s)

-- The escaped text determines the text: undoing the escapes gives it back.
unescape-escape : (s : Text) → unescape (escape s) ≡ s
unfolding escape
unescape-escape [] = refl
unescape-escape (c ∷ s) = unescape-char c (escape s) ∙ ap (λ t. c ∷ t) (unescape-escape s)

-- Newline, carriage return and tab.
abbrev pub IsBlank : ℕ → Type 0
IsBlank x = (x ≡ 10) ⊎ (x ≡ 13) ⊎ (x ≡ 9)

escape_char-Without : (x c : ℕ) → IsBlank x → Without x (escape_char c)
unfolding escape_char
escape_char-Without x c e = ground arith

-- The escaped text is printed on one line: it has no newline, carriage return or tab.
pub escape-Without : (x : ℕ) (s : Text) → IsBlank x → Without x (escape s)
unfolding escape
escape-Without x [] e = tt
escape-Without x (c ∷ s) e =
    Without-append x (escape_char c) (escape s) (escape_char-Without x c e) (escape-Without x s e)
