-- ===== src/Text.antt =====
-- protocol-server/src/utils/StringUtils.h, over the bytes of a std::string.
pub mod Split
pub mod Lines
mod Tests
use cpp_socket_programming.Prelude.{
  ℕ, zero, suc, ◌≡◌, Bool, true, false, List, [], ◌∷◌, ◌++◌, Option, none, some, ◌==◌, ltb,
  if◌then◌else◌, length,
}

abbrev pub Text : Type 0
Text = List ℕ

-- What is left of the text behind a prefix.
unfoldable pub strip : Text → Text → Option Text
strip [] s = some s
strip (d ∷ ds) [] = none
strip (d ∷ ds) (c ∷ cs) = if d == c then strip ds cs else none

abbrev pub behind : ℕ → Option (Text × Text) → Option (Text × Text)
behind c none = none
behind c (some (before, after)) = some (c ∷ before, after)

abbrev pub or_at : Option Text → Option (Text × Text) → Option (Text × Text)
or_at none later = later
or_at (some rest) later = some ([], rest)

-- `s.find(delimiter, pos)`: the text between `pos` and the first occurrence, and the text behind it.
unfoldable pub find : Text → Text → Option (Text × Text)
find d [] = or_at (strip d []) none
find d (c ∷ cs) = or_at (strip d (c ∷ cs)) (behind c (find d cs))

abbrev pub prepend : Text → Option (List Text) → Option (List Text)
prepend token none = none
prepend token (some tokens) = some (token ∷ tokens)

-- One round of the loop of `split`, with the rounds behind it.
abbrev pub split_round :
    Text → Option (Text × Text) → (Text → Option (List Text)) → Option (List Text)
split_round s none rest = some (s ∷ [])
split_round s (some (before, after)) rest = prepend before (rest after)

-- `split`: the rounds of the loop are bounded by fuel, and `none` is a loop that goes on.
unfoldable pub split : ℕ → Text → Text → Option (List Text)
split zero d s = none
split (suc fuel) d s = split_round s (find d s) (split fuel d)

-- `str.c_str()` as `strcpy` reads it.
unfoldable pub c_string : Text → Text
c_string [] = []
c_string (c ∷ cs) = if c == 0 then [] else c ∷ c_string cs

-- The loop of `ChopLine` over the copy: the text before the first colon and the text behind it.
unfoldable pub chop : Text → Option (Text × Text)
chop [] = none
chop (c ∷ cs) = if c == b':' then some ([], cs) else behind c (chop cs)

abbrev pub or_empty : Option (Text × Text) → Text × Text
or_empty none = ([], [])
or_empty (some r) = r

-- `ChopLine`: `none` where the line and its NUL do not fit into the buffer.
unfoldable pub chop_line : Text → Option (Text × Text)
unfolding c_string chop
chop_line s =
    let line = c_string s in if ltb (length line) 4096 then some (or_empty (chop line)) else none

-- `getStringWithEscapes`: newline, carriage return, tab and backslash.
unfoldable pub escape_char : ℕ → Text
escape_char c =
    if c == 10
    then 92 ∷ b'n' ∷ []
    else if c == 13
    then 92 ∷ b'r' ∷ []
    else if c == 9
    then 92 ∷ b't' ∷ []
    else if c == 92
    then 92 ∷ 92 ∷ []
    else c ∷ []

unfoldable pub escape : Text → Text
unfolding escape_char
escape [] = []
escape (c ∷ cs) = escape_char c ++ escape cs
