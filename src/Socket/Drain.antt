-- ===== src/Socket/Drain.antt =====
-- `ReceiveBytes` on a socket where nothing new arrives meanwhile.
use native.Mathlib.Decide.{ℕ_discrete}
use cpp_socket_programming.Prelude.{
  ℕ, zero, suc, ◌+◌, ◌-◌, ◌<◌, ◌≤◌, ◌≡◌, refl, sym, ap, ◌∙◌, ◌≢◌, [], ◌∷◌, ◌++◌, append_assoc,
  append-nil, Option, some, arith, ltb, if◌then◌else◌, length, take, drop,
}
use cpp_socket_programming.Socket.{
  Bytes, Chunk, chunk, closed, interrupted, broken, Kernel, read_buffer, after_available,
  after_recv, receive_loop, receive_bytes,
}

-- What the loop relies on, for calls of `recv` that fit the buffer: with bytes pending, `recv` gives
-- as many of them as were asked for, in order, and FIONREAD tells how many are pending.
pub record IsQuiet {N : Type 0} (k : Kernel N) (pending : N → Bytes) : Type 0 where
  pub recv_law :
      (len : ℕ) (n : N)
      → 0 < len
      → len ≤ read_buffer
      → pending n ≢ []
      → ((k.recv len n).0 ≡ chunk (take len (pending n)))
        × (pending (k.recv len n).1 ≡ drop len (pending n))
  pub available_law :
      (n : N) → ((k.available n).0 ≡ length (pending n)) × (pending (k.available n).1 ≡ pending n)

pub take-append-drop : (m : ℕ) (xs : Bytes) → take m xs ++ drop m xs ≡ xs
take-append-drop zero xs = refl
take-append-drop (suc m) [] = refl
take-append-drop (suc m) (x ∷ xs) = ap (λ l. x ∷ l) (take-append-drop m xs)

pub length-drop : (m : ℕ) (xs : Bytes) → length (drop m xs) ≡ length xs - m
length-drop zero xs = omega arith
length-drop (suc m) [] = omega arith
length-drop (suc m) (x ∷ xs) = omega (arith, length-drop m xs)

pub length-zero : (xs : Bytes) → length xs ≡ 0 → xs ≡ []
length-zero [] e = refl
length-zero (x ∷ xs) e = absurd (omega arith)

pub length-pos : (xs : Bytes) → xs ≢ [] → 0 < length xs
length-pos [] h = absurd (h refl)
length-pos (x ∷ xs) h = omega arith

module _ {N : Type 0} (k : Kernel N) (pending : N → Bytes) (q : IsQuiet k pending) where
  abbrev Loop : Type 0
  Loop = ℕ → Bytes → N → Option (Bytes × N)

  after_recv-chunk :
      (arg : ℕ) (ret t : Bytes) (r : Chunk × N) (loop : Loop)
      → r.0 ≡ chunk t
      → after_recv k arg ret r loop ≡ after_available k (ret ++ t) (k.available r.1) loop
  unfolding after_recv
  after_recv-chunk arg ret t (chunk u, n) loop e =
      let same : u ≡ t = cc in ap (λ x. after_available k (ret ++ x) (k.available n) loop) same
  after_recv-chunk arg ret t (closed, n) loop e = cc
  after_recv-chunk arg ret t (interrupted, n) loop e = cc
  after_recv-chunk arg ret t (broken, n) loop e = cc

  available-none :
      (ret : Bytes) (r : ℕ × N) (loop : Loop)
      → r.0 ≡ 0
      → after_available k ret r loop ≡ some (ret, r.1)
  unfolding after_available
  available-none ret (a, n) loop e = rw e

  available-some :
      (ret : Bytes) (r : ℕ × N) (loop : Loop)
      → r.0 ≢ 0
      → (arg : ℕ) × (0 < arg)
        × (arg ≤ read_buffer)
        × (after_available k ret r loop ≡ loop arg ret r.1)
  unfolding after_available
  available-some ret (a, n) loop h =
      ((if ltb read_buffer a then read_buffer else a), ground arith, ground arith, ground arith)

  -- The text is read as it stands, from any round of the loop on.
  drain :
      (fuel arg : ℕ) (ret : Bytes) (n : N)
      → 0 < arg
      → arg ≤ read_buffer
      → pending n ≢ []
      → length (pending n) < fuel
      → (n' : N) × (receive_loop k fuel arg ret n ≡ some (ret ++ pending n, n')) × (pending n' ≡ [])
  unfolding receive_loop
  drain zero arg ret n some_arg fits full enough = absurd (omega arith)
  drain (suc fuel) arg ret n some_arg fits full enough =
      let loop : Loop = receive_loop k fuel in
      let p : Bytes = pending n in
      let t : Bytes = take arg p in
      let got = q.recv_law arg n some_arg fits full in
      let n₁ : N = (k.recv arg n).1 in
      let n₂ : N = (k.available n₁).1 in
      let left = q.available_law n₁ in
      let read : after_recv k arg ret (k.recv arg n) loop
          ≡ after_available k (ret ++ t) (k.available n₁) loop =
        after_recv-chunk arg ret t (k.recv arg n) loop got.0 in
      let whole : (ret ++ t) ++ pending n₂ ≡ ret ++ p =
        append_assoc ret t (pending n₂)
        ∙ ap (λ l. ret ++ (t ++ l)) (left.1 ∙ got.1)
        ∙ ap (λ l. ret ++ l) (take-append-drop arg p) in
      elim (ℕ_discrete (k.available n₁).0 0) [
        | yes e ↦
            let empty : pending n₂ ≡ [] = left.1 ∙ length-zero (pending n₁) (sym left.0 ∙ e) in
            (
              n₂,
              read
                  ∙ available-none (ret ++ t) (k.available n₁) loop e
                  ∙ ap (λ l. some (l, n₂))
                      (sym (append-nil (ret ++ t)) ∙ ap (λ l. (ret ++ t) ++ l) (sym empty) ∙ whole),
              empty,
            )
        | no h ↦
            let (arg', some_arg', fits', go) = available-some (ret ++ t) (k.available n₁) loop h in
            let more : pending n₂ ≢ [] = λ e. h (left.0 ∙ ap length (sym left.1 ∙ e)) in
            let shorter : length (pending n₂) < fuel =
              omega
                (arith, ap length left.1, ap length got.1, length-drop arg p, length-pos p full) in
            let (n', run, empty) = drain fuel arg' (ret ++ t) n₂ some_arg' fits' more shorter in
            (n', read ∙ go ∙ run ∙ ap (λ l. some (l, n')) whole, empty)
      ]

  -- On a socket with bytes pending and no error, the call returns all of them and leaves none, within
  -- as many rounds as there are bytes, plus one; no `recv` asks for more than the buffer holds, since
  -- nothing is supposed of larger calls.
  pub receive_bytes-drains :
      (n : N)
      → pending n ≢ []
      → (n' : N) × (receive_bytes k (length (pending n) + 1) n ≡ some (pending n, n'))
        × (pending n' ≡ [])
  unfolding receive_bytes
  receive_bytes-drains n full =
      drain (length (pending n) + 1) read_buffer [] n (omega arith) (omega arith) full (omega arith)
