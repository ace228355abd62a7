-- ===== src/Upload.antt =====
-- file-upload/main.cpp: a server that saves the body of a POST request to a file. What the two calls
-- of `recv` return is an argument, where no bytes stand for 0 and for -1. The request is text up to
-- its first NUL, since the buffer is read as a C string.
pub mod Length
pub mod Save
mod Tests
use cpp_socket_programming.Prelude.{
  ℕ, zero, suc, ◌+◌, ◌-◌, ◌*◌, ◌^◌, ◌≡◌, Bool, true, false, ◌&&◌, ◌||◌, not, List, [], ◌∷◌, ◌++◌,
  Option, none, some, ◌==◌, ltb, leb, if◌then◌else◌, length, take, replicate,
}
use cpp_socket_programming.Text.{Text, strip, c_string}

-- `isspace` in the C locale.
abbrev pub is_space : ℕ → Bool
is_space c = c == 32 || leb 9 c && leb c 13

-- `request >> word`: white space is skipped, and the word ends before the next.
unfoldable pub skip_space : Text → Text
skip_space [] = []
skip_space (c ∷ cs) = if is_space c then skip_space cs else c ∷ cs

abbrev pub with_letter : ℕ → Text × Text → Text × Text
with_letter c (word, rest) = (c ∷ word, rest)

unfoldable pub until_space : Text → Text × Text
until_space [] = ([], [])
until_space (c ∷ cs) = if is_space c then ([], c ∷ cs) else with_letter c (until_space cs)

unfoldable pub read_word : Text → Text × Text
unfolding skip_space until_space
read_word s = until_space (skip_space s)

-- `std::getline`: the line without its newline; `none` where nothing is left.
unfoldable pub until_newline : Text → Text × Text
until_newline [] = ([], [])
until_newline (c ∷ cs) = if c == 10 then ([], cs) else with_letter c (until_newline cs)

-- "Content-Length: "
abbrev pub content_length_key : Text
content_length_key =
    67 ∷ 111 ∷ 110 ∷ 116 ∷ 101 ∷ 110 ∷ 116 ∷ 45 ∷ 76 ∷ 101 ∷ 110 ∷ 103 ∷ 116 ∷ 104 ∷ 58 ∷ 32 ∷ []

abbrev pub is_digit : ℕ → Bool
is_digit c = leb 48 c && leb c 57

-- The digits at the start of a text, as a number behind `n`.
unfoldable pub digits : ℕ → Text → ℕ
digits n [] = n
digits n (c ∷ cs) = let more = digits (10 * n + (c - 48)) cs in if is_digit c then more else n

-- `strtoul` behind its white space and sign, and what `std::stoul` makes of it: no digit and a number
-- of more than 64 bits are exceptions.
unfoldable pub unsigned : Text → Option ℕ
unfolding digits
unsigned [] = none
unsigned (c ∷ cs) =
    let n = digits 0 (c ∷ cs) in
    if is_digit c then if ltb n (2 ^ 64) then some n else none else none

-- A minus is taken modulo 2 ^ 64.
abbrev pub negated : Option ℕ → Option ℕ
negated none = none
negated (some n) = some (if n == 0 then 0 else 2 ^ 64 - n)

abbrev pub signed : Text → Option ℕ
signed [] = none
signed (c ∷ cs) =
    if c == 45 then negated (unsigned cs) else if c == 43 then unsigned cs else unsigned (c ∷ cs)

unfoldable pub stoul : Text → Option ℕ
unfolding unsigned skip_space
stoul s = signed (skip_space s)

-- One line of the loop over the header; `none` is an exception of `stoul`.
unfoldable pub header_line : Text → ℕ → Option ℕ
unfolding strip stoul
header_line line n = elim (strip content_length_key line) [
  | none ↦ some n
  | some value ↦ stoul value
]

abbrev pub then_line : Option ℕ → (ℕ → Option ℕ) → Option ℕ
then_line none f = none
then_line (some n) f = f n

-- line == "\r\n"
abbrev pub is_crlf : Text → Bool
is_crlf [] = false
is_crlf (c ∷ []) = false
is_crlf (c ∷ d ∷ []) = c == 13 && d == 10
is_crlf (c ∷ d ∷ e ∷ rest) = false

-- The loop. A text is read line by line on fuel, one unit for each line.
unfoldable pub content_length : ℕ → Text → ℕ → Option ℕ
unfolding header_line until_newline
content_length zero s n = some n
content_length (suc fuel) [] n = some n
content_length (suc fuel) (c ∷ cs) n =
    let (line, rest) = until_newline (c ∷ cs) in
    if is_crlf line then some n else then_line (header_line line n) (content_length fuel rest)

pub data Effect : Type 0 where
  saves : Text → Effect
  responds closes : Effect

-- Behind the second `recv`: the vector keeps its zeros where nothing was received.
unfoldable pub save : ℕ → Text → List Effect
save n [] = closes ∷ []
save n (b ∷ bytes) =
    saves ((b ∷ bytes) ++ replicate (n - length (b ∷ bytes)) 0) ∷ responds ∷ closes ∷ []

-- "POST"
abbrev pub is_post : Text → Bool
is_post (a ∷ b ∷ c ∷ d ∷ []) = a == 80 && b == 79 && c == 83 && d == 84
is_post s = false

module _ (allocates : ℕ → Bool) (body : ℕ → Text) where
  -- The vector of that length is allocated, or throws; an exception that leaves the thread ends the
  -- program, which is `none`.
  abbrev pub receive_file : Option ℕ → Option (List Effect)
  receive_file none = none
  receive_file (some n) = if allocates n then some (save n (body n)) else none

  -- The rest of `handleClient`, on the request.
  unfoldable pub handle_request : Text → Option (List Effect)
  handle_request s =
      let method = read_word s in
      let path = read_word method.1 in
      let version = read_word path.1 in
      if is_post method.0
      then receive_file (content_length (length version.1) version.1 0)
      else some (responds ∷ closes ∷ [])

  -- `handleClient`: the first `recv` is an argument, and `body n` is what a second one of n bytes gives.
  unfoldable pub handle_client : Text → Option (List Effect)
  unfolding c_string handle_request
  handle_client [] = some (closes ∷ [])
  handle_client (c ∷ cs) = handle_request (c_string (c ∷ cs))
