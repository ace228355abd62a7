-- ===== src/Select/Rounds.antt =====
-- What a round reads.
use cpp_socket_programming.Socket.{Kernel}
use cpp_socket_programming.Socket.Drain.{IsQuiet, receive_bytes-drains}
use cpp_socket_programming.Relay.{Bytes}
use cpp_socket_programming.Prelude.{
  ℕ, suc, ◌+◌, ◌<◌, ◌≤◌, ◌≡◌, refl, sym, ap, ◌∙◌, Bool, true, false, ◌&&◌, [], ◌∷◌, Option, none,
  some, arith, length,
}
use cpp_socket_programming.Select.{
  left_by, read, FdSet, fd_set, non_blocking, TypeSocket, timeout, asked, max_fd, Selects,
  socket_select, readable, read_if, both, read_round,
}

-- `select` fails, or leaves of the set below its first argument what is ready.
pub record IsSelect (select : Selects) (ready : ℕ → Bool) : Type 0 where
  pub leaves :
      (n : ℕ) (fds left : FdSet) (t : Option ℕ)
      → select n fds t ≡ some left
      → (fd : ℕ) → fd < n
      → left fd ≡ (fds fd && ready fd)

asked_both : (s1 s2 : ℕ) → (asked s1 (some s2) s1 ≡ true) × (asked s1 (some s2) s2 ≡ true)
unfolding asked fd_set
asked_both s1 s2 = (ground arith, ground arith)

below_max : (s1 s2 : ℕ) → (s1 ≤ max_fd s1 (some s2)) × (s2 ≤ max_fd s1 (some s2))
unfolding max_fd
below_max s1 s2 = (ground arith, ground arith)

module _ (select : Selects) (ready : ℕ → Bool) (law : IsSelect select ready) where
  -- What a call that does not fail leaves.
  socket_select-ready :
      (s1 s2 : ℕ) (type : TypeSocket) (left : FdSet)
      → select (suc (max_fd s1 (some s2))) (asked s1 (some s2)) (timeout type) ≡ some left
      → (readable (socket_select select s1 (some s2) type) s1 ≡ ready s1)
        × (readable (socket_select select s1 (some s2) type) s2 ≡ ready s2)
  unfolding socket_select
  socket_select-ready s1 s2 type left e =
      let n = suc (max_fd s1 (some s2)) in
      let fds = asked s1 (some s2) in
      let ask = asked_both s1 s2 in
      let below = below_max s1 s2 in
      let same = ap (λ o. left_by o fds) e in
      let at : (fd : ℕ)
          → fd < n
          → fds fd ≡ true
          → left_by (select n fds (timeout type)) fds fd ≡ ready fd =
        λ fd lt on.
          ap (λ (f : FdSet). f fd) same
          ∙ law.leaves n fds left (timeout type) e fd lt
          ∙ ap (λ b. b && ready fd) on in
      (at s1 (omega (arith, below.0)) ask.0, at s2 (omega (arith, below.1)) ask.1)

-- Behind a call that fails, both sockets count as readable.
socket_select-failed :
    (select : Selects) (s1 s2 : ℕ) (type : TypeSocket)
    → select (suc (max_fd s1 (some s2))) (asked s1 (some s2)) (timeout type) ≡ none
    → (readable (socket_select select s1 (some s2) type) s1 ≡ true)
      × (readable (socket_select select s1 (some s2) type) s2 ≡ true)
unfolding socket_select
socket_select-failed select s1 s2 type e =
    let fds = asked s1 (some s2) in
    let same = ap (λ o. left_by o fds) e in
    let ask = asked_both s1 s2 in
    (ap (λ (f : FdSet). f s1) same ∙ ask.0, ap (λ (f : FdSet). f s2) same ∙ ask.1)

-- What a socket with these bytes pending gives.
abbrev pub pending_read : Bytes → Option Bytes
pending_read [] = none
pending_read (b ∷ bytes) = some (b ∷ bytes)

abbrev pub is_full : Bytes → Bool
is_full [] = false
is_full (b ∷ bytes) = true

module _ {N : Type 0} (k : Kernel N) (pending : N → Bytes) (q : IsQuiet k pending) where
  read_if-pending :
      (b : Bool) (n : N)
      → b ≡ is_full (pending n)
      → (n' : N) × (read_if k b (length (pending n) + 1) n ≡ some (pending_read (pending n), n'))
        × (pending n' ≡ [])
  unfolding read_if
  read_if-pending b n e = go (pending n) refl
    where
      go :
          (p : Bytes)
          → pending n ≡ p
          → (n' : N) × (read_if k b (length (pending n) + 1) n
              ≡ some (pending_read (pending n), n'))
            × (pending n' ≡ [])
      go [] empty =
          let off : b ≡ false = e ∙ ap is_full empty in
          (
            n,
            ap (λ c. read_if k c (length (pending n) + 1) n) off
                ∙ ap (λ t. some (pending_read t, n)) (sym empty),
            empty,
          )
      go (x ∷ xs) full =
          let on : b ≡ true = e ∙ ap is_full full in
          let (n', drained, left) = receive_bytes-drains k pending q n (λ h. absurd cc) in
          (
            n',
            ap (λ c. read_if k c (length (pending n) + 1) n) on
                ∙ ap read drained
                ∙ ap (λ t. some (t, n')) (ap some full ∙ sym (ap pending_read full)),
            left,
          )

-- A call of `select` that does not fail, on two sockets, each ready exactly if bytes are pending there:
-- a round reads all that is pending on each of them and leaves nothing, and does not read a socket
-- with nothing pending. The fuel of each read is the number of its pending bytes, plus one.
pub read_round-pending :
    {N M : Type 0} (select : Selects) (ready : ℕ → Bool) (k : Kernel N) (l : Kernel M)
    (pending_k : N → Bytes) (pending_l : M → Bytes) (client target : ℕ) (n : N) (m : M)
    (left : FdSet)
    → IsSelect select ready
    → IsQuiet k pending_k
    → IsQuiet l pending_l
    → ready client ≡ is_full (pending_k n)
    → ready target ≡ is_full (pending_l m)
    → select (suc (max_fd client (some target))) (asked client (some target)) (some 1) ≡ some left
    → (n' : N) × (m' : M) × (read_round select k l
          (client, target)
          (length (pending_k n) + 1, length (pending_l m) + 1)
          n
          m
        ≡ some (
          record {
            from_client = pending_read (pending_k n);
            from_target = pending_read (pending_l m);
          },
          (n', m'),
        ))
      × (pending_k n' ≡ [])
      × (pending_l m' ≡ [])
unfolding read_round
read_round-pending select ready k l pending_k pending_l client target n m left law qk ql rk rl e =
    let (c, t) = socket_select-ready select ready law client target non_blocking left e in
    let sel = socket_select select client (some target) non_blocking in
    let (n', read_k, empty_k) = read_if-pending k pending_k qk (readable sel client) n (c ∙ rk) in
    let (m', read_l, empty_l) = read_if-pending l pending_l ql (readable sel target) m (t ∙ rl) in
    (
      n',
      m',
      ap (λ o. both o (read_if l (readable sel target) (length (pending_l m) + 1) m)) read_k
          ∙ ap (both (some (pending_read (pending_k n), n'))) read_l,
      empty_k,
      empty_l,
    )
