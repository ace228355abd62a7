-- ===== src/Upload/Save.antt =====
-- What is saved of an upload.
use cpp_socket_programming.Text.{Text, strip}
use cpp_socket_programming.Text.Lines.{Without, c_string-whole}
use cpp_socket_programming.Prelude.{
  ℕ, zero, suc, ◌-◌, ◌≤◌, ◌≡◌, refl, ap, ◌∙◌, Bool, true, List, [], ◌∷◌, ◌++◌, some, arith, length,
  length-append, replicate,
}
use cpp_socket_programming.Upload.Length.{
  unlines, AllWithout, all_lines, content_length-unlines, length-unlines, AllLetters,
  read_word-word, read_word-space,
}
use cpp_socket_programming.Upload.{
  read_word, content_length, saves, responds, closes, save, handle_request, header_line,
  handle_client,
}

length-replicate : (n : ℕ) → length (replicate {A = ℕ} n 0) ≡ n
length-replicate zero = refl
length-replicate (suc n) = omega (arith, length-replicate n)

-- "POST", two words, and the lines, the rest of the first line among them.
abbrev pub post_request : Text → Text → List Text → Text
post_request path version lines =
    (80 ∷ 79 ∷ 83 ∷ 84 ∷ []) ++ (32 ∷ (path ++ (32 ∷ (version ++ (13 ∷ (10 ∷ unlines lines))))))

abbrev WordsRead : ℕ → ℕ → Text → Text → List Text → Type 0
WordsRead p v ps vs lines =
    let after_path = 32 ∷ ((v ∷ vs) ++ (13 ∷ (10 ∷ unlines lines))) in
    let after_method = 32 ∷ ((p ∷ ps) ++ after_path) in
    (read_word (post_request (p ∷ ps) (v ∷ vs) lines) ≡ (80 ∷ 79 ∷ 83 ∷ 84 ∷ [], after_method))
    × (read_word after_method ≡ (p ∷ ps, after_path))
    × (read_word after_path ≡ (v ∷ vs, 13 ∷ (10 ∷ unlines lines)))

words_read :
    (p v : ℕ) (ps vs : Text) (lines : List Text)
    → AllLetters (p ∷ ps)
    → AllLetters (v ∷ vs)
    → WordsRead p v ps vs lines
words_read p v ps vs lines path version = (
  read_word-word 80 (79 ∷ 83 ∷ 84 ∷ []) _ 32 (refl, (refl, (refl, (refl, tt)))) refl,
  read_word-space _ ∙ read_word-word p ps _ 32 path refl,
  read_word-space _ ∙ read_word-word v vs (10 ∷ unlines lines) 13 version refl,
)

header-unlines :
    (n : ℕ) (lines : List Text)
    → AllWithout 10 lines
    → content_length (length (13 ∷ (10 ∷ unlines lines))) (13 ∷ (10 ∷ unlines lines)) n
      ≡ all_lines ((13 ∷ []) ∷ lines) n
header-unlines n lines h =
    content_length-unlines _ n ((13 ∷ []) ∷ lines) (((λ e. cc), tt), h)
      (omega (arith, length-unlines lines))

handle_request-post :
    (allocates : ℕ → Bool) (body : ℕ → Text) (p v n b : ℕ) (ps vs bytes : Text) (lines : List Text)
    → WordsRead p v ps vs lines
    → content_length (length (13 ∷ (10 ∷ unlines lines))) (13 ∷ (10 ∷ unlines lines)) 0 ≡ some n
    → allocates n ≡ true
    → body n ≡ b ∷ bytes
    → handle_request allocates body (post_request (p ∷ ps) (v ∷ vs) lines)
      ≡ some (saves ((b ∷ bytes) ++ replicate (n - length (b ∷ bytes)) 0) ∷ responds ∷ closes ∷ [])
unfolding handle_request save
handle_request-post allocates body p v n b ps vs bytes lines words len room got =
    rw (words.0, words.1, words.2, len, room, got)

-- A POST request without NUL whose header and whose first piece of the body come in one packet of
-- whole lines, where the lengths are numbers, the buffer for the file is allocated, and the second
-- `recv` gives something: the length is the one of the last Content-Length line of the packet, in
-- the header or behind it, and the file has that length, with what the second `recv` gave in front
-- of zeros. Nothing of the first packet is in it.
pub handle_client_lem :
    (allocates : ℕ → Bool) (body : ℕ → Text) (p v n b : ℕ) (ps vs bytes : Text) (lines : List Text)
    → AllLetters (p ∷ ps)
    → AllLetters (v ∷ vs)
    → AllWithout 10 lines
    → Without 0 (post_request (p ∷ ps) (v ∷ vs) lines)
    → all_lines lines 0 ≡ some n
    → allocates n ≡ true
    → body n ≡ b ∷ bytes
    → length (b ∷ bytes) ≤ n
    → let file = (b ∷ bytes) ++ replicate (n - length (b ∷ bytes)) 0 in
      (handle_client allocates body (post_request (p ∷ ps) (v ∷ vs) lines)
        ≡ some (saves file ∷ responds ∷ closes ∷ []))
      × (length file ≡ n)
unfolding handle_client
handle_client_lem allocates body p v n b ps vs bytes lines path version whole plain len room got
      fits =
    let words = words_read p v ps vs lines path version in
    (
      ap (handle_request allocates body)
            (c_string-whole (post_request (p ∷ ps) (v ∷ vs) lines) plain)
          ∙ handle_request-post allocates body p v n b ps vs bytes lines words
              (header-unlines 0 lines whole ∙ unfold header_line in (unfold strip in len)) room got,
      omega (
        arith,
        length-append (b ∷ bytes) (replicate (n - length (b ∷ bytes)) 0),
        length-replicate (n - length (b ∷ bytes)),
      ),
    )
