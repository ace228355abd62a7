-- ===== src/Passthrough/Read.antt =====
-- On a socket where nothing new arrives meanwhile, the two versions of `ReceiveBytes` read the same.
use native.Mathlib.Decide.{ℕ_discrete}
use cpp_socket_programming.Prelude.{
  ℕ, zero, suc, ◌+◌, ◌<◌, ◌≤◌, ◌≡◌, sym, ap, ◌∙◌, ◌≢◌, [], ◌++◌, append_assoc, append-nil, Option,
  some, arith, ltb, if◌then◌else◌, length, take,
}
use cpp_socket_programming.Socket.{
  Bytes, Chunk, chunk, closed, interrupted, broken, Kernel, read_buffer,
}
use cpp_socket_programming.Socket as Protocol
use cpp_socket_programming.Socket.Drain.{
  IsQuiet, take-append-drop, length-drop, length-zero, length-pos, receive_bytes-drains,
}
use cpp_socket_programming.Passthrough.{after_read, read_round, read_loop, receive_bytes}

module _ {N : Type 0} (k : Kernel N) (pending : N → Bytes) (q : IsQuiet k pending) where
  abbrev Loop : Type 0
  Loop = Bytes → N → Option (Bytes × N)

  after_read-chunk :
      (ret t : Bytes) (r : Chunk × N) (loop : Loop)
      → r.0 ≡ chunk t
      → after_read k ret r loop ≡ loop (ret ++ t) r.1
  unfolding after_read
  after_read-chunk ret t (chunk u, n) loop e =
      let same : u ≡ t = cc in ap (λ x. loop (ret ++ x) n) same
  after_read-chunk ret t (closed, n) loop e = cc
  after_read-chunk ret t (interrupted, n) loop e = cc
  after_read-chunk ret t (broken, n) loop e = cc

  read_round-none :
      (ret : Bytes) (r : ℕ × N) (loop : Loop) → r.0 ≡ 0 → read_round k ret r loop ≡ some (ret, r.1)
  unfolding read_round
  read_round-none ret (a, n) loop e = rw e

  read_round-some :
      (ret : Bytes) (r : ℕ × N) (loop : Loop)
      → r.0 ≢ 0
      → (arg : ℕ) × (0 < arg)
        × (arg ≤ read_buffer)
        × (read_round k ret r loop ≡ after_read k ret (k.recv arg r.1) loop)
  unfolding read_round
  read_round-some ret (a, n) loop h =
      ((if ltb read_buffer a then read_buffer else a), ground arith, ground arith, ground arith)

  drain :
      (fuel : ℕ) (ret : Bytes) (n : N)
      → length (pending n) < fuel
      → (n' : N) × (read_loop k fuel ret n ≡ some (ret ++ pending n, n')) × (pending n' ≡ [])
  unfolding read_loop
  drain zero ret n enough = absurd (omega arith)
  drain (suc fuel) ret n enough =
      let loop : Loop = read_loop k fuel in
      let told = q.available_law n in
      let n₁ : N = (k.available n).1 in
      elim (ℕ_discrete (k.available n).0 0) [
        | yes e ↦
            let empty : pending n ≡ [] = length-zero (pending n) (sym told.0 ∙ e) in
            (
              n₁,
              read_round-none ret (k.available n) loop e
                  ∙ ap (λ l. some (l, n₁)) (sym (append-nil ret) ∙ ap (λ l. ret ++ l) (sym empty)),
              told.1 ∙ empty,
            )
        | no h ↦
            let (arg, some_arg, fits, go) = read_round-some ret (k.available n) loop h in
            let full : pending n₁ ≢ [] = λ e. h (told.0 ∙ ap length (sym told.1 ∙ e)) in
            let got = q.recv_law arg n₁ some_arg fits full in
            let t : Bytes = take arg (pending n₁) in
            let n₂ : N = (k.recv arg n₁).1 in
            let shorter : length (pending n₂) < fuel = omega (
              arith,
              ap length told.1,
              ap length got.1,
              length-drop arg (pending n₁),
              length-pos (pending n₁) full,
            ) in
            let whole : (ret ++ t) ++ pending n₂ ≡ ret ++ pending n =
              append_assoc ret t (pending n₂)
              ∙ ap (λ l. ret ++ (t ++ l)) got.1
              ∙ ap (λ l. ret ++ l) (take-append-drop arg (pending n₁) ∙ told.1) in
            let (n', run, empty) = drain fuel (ret ++ t) n₂ shorter in
            (
              n',
              go
                  ∙ after_read-chunk ret t (k.recv arg n₁) loop got.0
                  ∙ run
                  ∙ ap (λ l. some (l, n')) whole,
              empty,
            )
      ]

  -- On a socket with no error where nothing new arrives meanwhile, the proxy's `ReceiveBytes`, which
  -- asks FIONREAD before each `recv`, returns all that is pending and leaves nothing, also where
  -- nothing is; where something is, the `ReceiveBytes` of the protocol server, which calls `recv` first,
  -- returns the same bytes and leaves nothing either. Both take as many rounds as there are bytes, plus
  -- one, at most.
  pub receive_bytes-receive_bytes :
      (n : N)
      → let fuel : ℕ = length (pending n) + 1 in
        ((n' : N) × (receive_bytes k fuel n ≡ some (pending n, n')) × (pending n' ≡ []))
        × (pending n ≢ []
            → (n' : N) × (Protocol.receive_bytes k fuel n ≡ some (pending n, n'))
              × (pending n' ≡ []))
  unfolding receive_bytes
  receive_bytes-receive_bytes n =
      (drain (length (pending n) + 1) [] n (omega arith), receive_bytes-drains k pending q n)
