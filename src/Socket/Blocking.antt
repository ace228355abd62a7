-- ===== src/Socket/Blocking.antt =====
-- `RecvBlocking`.
use cpp_socket_programming.Prelude.{
  ℕ, zero, suc, ◌+◌, ◌-◌, ◌^◌, ◌<◌, ◌≡◌, ap, ◌∙◌, ℤ, pos, negsuc, List, [], ◌∷◌, ◌++◌, map, some,
  arith, replicate,
}
use cpp_socket_programming.Socket.{recv_remaining, recv_blocking}

abbrev pub AllPositive : List ℕ → Type 0
AllPositive [] = Unit {0}
AllPositive (c ∷ cs) = (0 < c) × AllPositive cs

abbrev pub sum : List ℕ → ℕ
sum [] = 0
sum (c ∷ cs) = c + sum cs

remaining-more :
    (size left c : ℕ) (rest : List ℤ)
    → 0 < c
    → c < left
    → left < 2 ^ 64
    → recv_remaining size left (pos c ∷ rest) ≡ recv_remaining size (left - c) rest
unfolding recv_remaining
remaining-more size left c rest h lt small = ground arith

remaining-last :
    (size c : ℕ) (rest : List ℤ)
    → 0 < c
    → c < 2 ^ 64
    → recv_remaining size c (pos c ∷ rest) ≡ some (size, rest)
unfolding recv_remaining
remaining-last size c rest h small = ground arith

remaining-all :
    (size left : ℕ) (cs : List ℕ) (rest : List ℤ)
    → AllPositive cs
    → sum cs ≡ left
    → 0 < left
    → left < 2 ^ 64
    → recv_remaining size left (map pos cs ++ rest) ≡ some (size, rest)
remaining-all size left [] rest h e some_left small = absurd (omega arith)
remaining-all size left (c ∷ []) rest h e some_left small =
    ap (λ t. recv_remaining size t (pos c ∷ rest)) {x = left} {y = c} (omega arith)
    ∙ remaining-last size c rest h.0 (omega arith)
remaining-all size left (c ∷ d ∷ cs) rest h e some_left small =
    remaining-more size left c (map pos (d ∷ cs) ++ rest) h.0 (omega arith) small
    ∙ remaining-all size (left - c) (d ∷ cs) rest h.1 (omega arith) (omega arith) (omega arith)

-- If the bytes arrive in pieces that add up to the size, all of them are awaited and the size is
-- returned; answers behind the last piece are left alone.
pub recv_blocking-pieces :
    (size : ℕ) (cs : List ℕ) (rest : List ℤ)
    → AllPositive cs
    → sum cs ≡ size
    → 0 < size
    → size < 2 ^ 64
    → recv_blocking size (map pos cs ++ rest) ≡ some (size, rest)
unfolding recv_blocking
recv_blocking-pieces size cs rest = remaining-all size size cs rest

remaining-error :
    (size left : ℕ) (rest : List ℤ)
    → left + 1 < 2 ^ 64
    → recv_remaining size left (negsuc 0 ∷ rest) ≡ recv_remaining size (left + 1) rest
unfolding recv_remaining
remaining-error size left rest small = ground arith

remaining-errors :
    (k size left : ℕ) (rest : List ℤ)
    → left + k < 2 ^ 64
    → recv_remaining size left (replicate k (negsuc 0) ++ rest)
      ≡ recv_remaining size (left + k) rest
remaining-errors zero size left rest small =
    ap (λ t. recv_remaining size t rest) {x = left} {y = left + 0} (omega arith)
remaining-errors (suc k) size left rest small =
    remaining-error size left (replicate k (negsuc 0) ++ rest) (omega arith)
    ∙ remaining-errors k size (left + 1) rest (omega arith)
    ∙ ap (λ t. recv_remaining size t rest) {x = left + 1 + k} {y = left + suc k} (omega arith)

-- An error of `recv` is not noticed, because its -1 is stored unsigned: after k errors the loop goes
-- on and asks for k bytes more than the buffer's size.
recv_blocking-errors :
    (k size : ℕ) (rest : List ℤ)
    → size + k < 2 ^ 64
    → recv_blocking size (replicate k (negsuc 0) ++ rest) ≡ recv_remaining size (size + k) rest
unfolding recv_blocking
recv_blocking-errors k size rest = remaining-errors k size size rest
