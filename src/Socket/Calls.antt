-- ===== src/Socket/Calls.antt =====
-- The methods of the class that pass on one call of the operating system, and `Peek`, which repeats
-- its call. What the calls return is an argument.
use cpp_socket_programming.Prelude.{
  ℕ, zero, suc, ◌≡◌, refl, ◌⊎◌, inl, inr, ℤ, pos, negsuc, ◌==ℤ◌, ==ℤ_iff, Bool, true, false, ◌||◌,
  not, List, [], ◌∷◌, Option, none, some, arith, if◌then◌else◌, take,
}

-- `Receive`, with the return of `recv`: its result and `*len`.
unfoldable pub receive : ℤ → ℤ → Bool × ℤ
receive len ret = if (ret ==ℤ pos 0) || (ret ==ℤ negsuc 0) then (false, len) else (true, ret)

-- `SendBytes` with a buffer, over the return of `send`.
unfoldable pub send_bytes : ℤ → Bool
send_bytes ret = not (ret ==ℤ negsuc 0)

-- `Peek`: the result, where none is a variable that was never set, and the number of the loop. The
-- last argument is the result so far.
unfoldable pub peek : ℕ → List ℤ → Option ℤ → Option ℤ
peek zero answers result = result
peek (suc iterations) [] result = result
peek (suc iterations) (r ∷ answers) result =
    let rest = peek iterations answers (some r) in if r ==ℤ pos 1 then some r else rest

abbrev Among : ℤ → List ℤ → Type 0
Among x [] = ⊥
Among x (y ∷ ys) = (x ≡ y) ⊎ Among x ys

-- The last of the answers, or the first that is 1.
peek-one :
    (iterations : ℕ) (answers : List ℤ) (result : Option ℤ)
    → Among (pos 1) (take iterations answers)
    → peek iterations answers result ≡ some (pos 1)
unfolding peek
peek-one zero answers result h = absurd h
peek-one (suc n) [] result h = absurd h
peek-one (suc n) (r ∷ answers) result (inl e) = ground (arith, ==ℤ_iff r (pos 1), e)
peek-one (suc n) (r ∷ answers) result (inr h) =
    ground (arith, ==ℤ_iff r (pos 1), peek-one n answers (some r) h)

-- No loop has run.
peek-unset : (answers : List ℤ) → peek 0 answers none ≡ none
unfolding peek
peek-unset answers = refl
