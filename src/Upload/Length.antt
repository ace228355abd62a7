-- ===== src/Upload/Length.antt =====
-- How the length of the file is read from the request.
use cpp_socket_programming.Text.{Text}
use cpp_socket_programming.Text.Lines.{Without}
use cpp_socket_programming.Prelude.{
  ℕ, zero, suc, ◌≤◌, ◌≡◌, refl, ◌∙◌, true, false, List, [], ◌∷◌, ◌++◌, Option, none, some, arith,
  length, length-append,
}
use cpp_socket_programming.Upload.{
  is_space, until_space, read_word, until_newline, header_line, is_crlf, then_line, content_length,
}

-- The text of some lines, each with its newline.
abbrev pub unlines : List Text → Text
unlines [] = []
unlines (line ∷ lines) = line ++ (10 ∷ unlines lines)

abbrev pub AllWithout : ℕ → List Text → Type 0
AllWithout x [] = Unit {0}
AllWithout x (line ∷ lines) = Without x line × AllWithout x lines

-- Every line is read as a header, the empty one and those behind it included.
abbrev pub all_lines : List Text → ℕ → Option ℕ
all_lines [] n = some n
all_lines (line ∷ lines) n = then_line (header_line line n) (all_lines lines)

until_newline-line :
    (line rest : Text) → Without 10 line → until_newline (line ++ (10 ∷ rest)) ≡ (line, rest)
unfolding until_newline
until_newline-line [] rest h = refl
until_newline-line (c ∷ line) rest h = ground (arith, until_newline-line line rest h.1)

is_crlf-Without : (line : Text) → Without 10 line → is_crlf line ≡ false
is_crlf-Without [] h = refl
is_crlf-Without (c ∷ []) h = refl
is_crlf-Without (c ∷ d ∷ []) h = ground arith
is_crlf-Without (c ∷ d ∷ e ∷ line) h = refl

content_length-line :
    (fuel n : ℕ) (line rest : Text)
    → Without 10 line
    → content_length (suc fuel) (line ++ (10 ∷ rest)) n
      ≡ then_line (header_line line n) (content_length fuel rest)
unfolding content_length
content_length-line fuel n [] rest h = unfold until_newline in refl
content_length-line fuel n (c ∷ line) rest h =
    rw (until_newline-line (c ∷ line) rest h, is_crlf-Without (c ∷ line) h)

then_line-ext :
    (r : Option ℕ) (f g : ℕ → Option ℕ) → ((n : ℕ) → f n ≡ g n) → then_line r f ≡ then_line r g
then_line-ext none f g h = refl
then_line-ext (some n) f g h = h n

pub content_length-unlines :
    (fuel n : ℕ) (lines : List Text)
    → AllWithout 10 lines
    → length lines ≤ fuel
    → content_length fuel (unlines lines) n ≡ all_lines lines n
content_length-unlines zero n [] h enough = unfold content_length in refl
content_length-unlines (suc fuel) n [] h enough = unfold content_length in refl
content_length-unlines zero n (line ∷ lines) h enough = absurd (omega arith)
content_length-unlines (suc fuel) n (line ∷ lines) h enough =
    content_length-line fuel n line (unlines lines) h.0
    ∙ then_line-ext (header_line line n) _ _
        (λ m. content_length-unlines fuel m lines h.1 (omega arith))

-- A text has at least as many bytes as lines.
pub length-unlines : (lines : List Text) → length lines ≤ length (unlines lines)
length-unlines [] = omega arith
length-unlines (line ∷ lines) =
    omega (arith, length-append line (10 ∷ unlines lines), length-unlines lines)

-- A word is followed by white space, and has none.
abbrev pub AllLetters : Text → Type 0
AllLetters [] = Unit {0}
AllLetters (c ∷ cs) = (is_space c ≡ false) × AllLetters cs

until_space-word :
    (word rest : Text) (c : ℕ)
    → AllLetters word
    → is_space c ≡ true
    → until_space (word ++ (c ∷ rest)) ≡ (word, c ∷ rest)
unfolding until_space
until_space-word [] rest c h s = rw s
until_space-word (d ∷ word) rest c h s = rw (h.0, until_space-word word rest c h.1 s)

pub read_word-word :
    (d : ℕ) (word rest : Text) (c : ℕ)
    → AllLetters (d ∷ word)
    → is_space c ≡ true
    → read_word ((d ∷ word) ++ (c ∷ rest)) ≡ (d ∷ word, c ∷ rest)
unfolding read_word
read_word-word d word rest c h s = rw (h.0, until_space-word (d ∷ word) rest c h s)

pub read_word-space : (s : Text) → read_word (32 ∷ s) ≡ read_word s
unfolding read_word
read_word-space s = refl
