-- ===== src/Wire/Ends.antt =====
-- The loop of `readCString` ends.
use cpp_socket_programming.Text.{Text, c_string}
use cpp_socket_programming.Prelude.{
  ℕ, zero, suc, ◌+◌, ◌≤◌, ◌<◌, ◌≡◌, refl, sym, ap, Bool, true, false, [], ◌∷◌, ◌++◌, append_assoc,
  append-nil, some, ◌==◌, arith, if◌then◌else◌, length, drop,
}
use cpp_socket_programming.Wire.{returns, char_at, read_chars, read_c_string}

char_at-drop :
    (i : ℕ) (buffer : Text) → i ≤ length buffer → char_at buffer i ≡ char_at (drop i buffer) 0
unfolding char_at
char_at-drop zero buffer h = refl
char_at-drop (suc i) [] h = absurd (omega arith)
char_at-drop (suc i) (c ∷ cs) h = char_at-drop i cs (omega arith)

drop-tail :
    (i c : ℕ) (buffer left : Text)
    → drop i buffer ≡ c ∷ left
    → (suc i ≤ length buffer) × (drop (suc i) buffer ≡ left)
drop-tail zero c [] left e = absurd cc
drop-tail zero c (x ∷ xs) left e = (omega arith, cc)
drop-tail (suc i) c [] left e = absurd cc
drop-tail (suc i) c (x ∷ xs) left e =
    let more = drop-tail i c xs left e in (omega (arith, more.0), more.1)

length-drop : (i : ℕ) (xs : Text) → i ≤ length xs → length (drop i xs) + i ≡ length xs
length-drop zero xs h = omega arith
length-drop (suc i) [] h = absurd (omega arith)
length-drop (suc i) (x ∷ xs) h = omega (arith, length-drop i xs (omega arith))

read_chars-at :
    (fuel : ℕ) (buffer name left : Text) (i : ℕ)
    → i ≤ length buffer
    → drop i buffer ≡ left
    → length left < fuel
    → read_chars fuel buffer name i ≡ some (returns (name ++ c_string left))
unfolding read_chars c_string char_at
read_chars-at zero buffer name left i h e lt = absurd (omega arith)
read_chars-at (suc fuel) buffer name [] i h e lt =
    rw (char_at-drop i buffer h, e, append-nil name) refl
read_chars-at (suc fuel) buffer name (c ∷ left) i h e lt =
    let tail = drop-tail i c buffer left e in
    let more =
      read_chars-at fuel buffer (name ++ (c ∷ [])) left (suc i) tail.0 tail.1 (omega arith) in
    rw (char_at-drop i buffer h, e, more, append_assoc name (c ∷ []) (c_string left)) (go (c == 0))
  where
    go :
        (b : Bool)
        → (if b then some (returns name) else some (returns (name ++ (c ∷ c_string left))))
          ≡ some (returns (name ++ (if b then [] else c ∷ c_string left)))
    go true = ap (λ t. some (returns t)) (sym (append-nil name))
    go false = refl

-- From a start inside the buffer, or at its end, the loop ends in as many rounds as there are bytes
-- behind the start and one more, and returns the bytes before the first NUL there; where there is
-- none, all the bytes to the end of the buffer, with no read behind it.
read_c_string_lem :
    (fuel start : ℕ) (buffer : Text)
    → start ≤ length buffer
    → length buffer < fuel + start
    → read_c_string fuel buffer start ≡ some (returns (c_string (drop start buffer)))
unfolding read_c_string
read_c_string_lem fuel start buffer h lt =
    read_chars-at fuel buffer [] (drop start buffer) start h refl
      (omega (arith, length-drop start buffer h))
