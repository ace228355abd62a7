-- ===== src/Text/Tests.antt =====
-- The theorems about texts at concrete inputs.
use cpp_socket_programming.Prelude.{◌≡◌, ◌≢◌, refl, List, [], ◌∷◌, some, arith}
use cpp_socket_programming.Text.Split.{join, AllFree, split_lem}
use cpp_socket_programming.Text.Lines.{chop_line-key}
use cpp_socket_programming.Text.{Text, strip, find, split, chop_line}

-- "a, b"
abbrev pair : Text
pair = b'a' ∷ b',' ∷ b' ' ∷ b'b' ∷ []

split-pair : split 5 (b',' ∷ b' ' ∷ []) pair ≡ some ((b'a' ∷ []) ∷ (b'b' ∷ []) ∷ [])
unfolding split find strip
split-pair = refl

split_lem_example :
    (ts : List Text) × (split 5 (b',' ∷ b' ' ∷ []) pair ≡ some ts)
    × (join (b',' ∷ b' ' ∷ []) ts ≡ pair)
    × (ts ≢ [])
    × AllFree (b',' ∷ b' ' ∷ []) ts
split_lem_example = split_lem (b',' ∷ b' ' ∷ []) pair (omega arith)

-- "to:a:b"
chop_line-key_example :
    chop_line (b't' ∷ b'o' ∷ b':' ∷ b'a' ∷ b':' ∷ b'b' ∷ [])
    ≡ some (b't' ∷ b'o' ∷ [], b'a' ∷ b':' ∷ b'b' ∷ [])
chop_line-key_example =
    chop_line-key (b't' ∷ b'o' ∷ []) (b'a' ∷ b':' ∷ b'b' ∷ []) (omega arith) (omega arith)
      (omega arith) (omega arith)
