-- ===== src/Pool/Release.antt =====
-- `release_connection` and the destructor of a proxy.
use cpp_socket_programming.Prelude.{
  ℕ, ◌<◌, ◌≡◌, subst, ◌≢◌, inl, inr, true, false, arith, Bool-cases, count, contains,
  contains-count, count-erase, length-erase,
}
use cpp_socket_programming.Pool.Nodes.{
  total, IsDistinct, IsOneMore, count-insert_node, length-insert_node, not-contains-of_count,
}
use cpp_socket_programming.Pool.{NodeOrder, Pool, release_connection, size}

module _ (o : NodeOrder) (p : Pool) (v : IsDistinct p) (c : ℕ) where
  -- A busy connection is idle afterwards; any other argument, null included, changes nothing.
  pub total-release_connection : (a : ℕ) → total a (release_connection o c p) ≡ total a p
  unfolding release_connection
  total-release_connection a = elim (Bool-cases (contains c p.busy)) [
    | inl held ↦
        let lent : 0 < count c p.busy = contains-count c p.busy held in
        let absent : contains c p.idle ≡ false =
          not-contains-of_count c p.idle (omega (arith, v.once c)) in
        ground (arith, count-insert_node o a c p.idle absent, count-erase a c p.busy lent)
    | inr other ↦ ground arith
  ]

  pub release_connection-IsDistinct : IsDistinct (release_connection o c p)
  release_connection-IsDistinct = record {
    once = λ a. omega (arith, total-release_connection a, v.once a);
    no_null = omega (arith, total-release_connection 0, v.no_null);
  }

  pub size-release_connection : size (release_connection o c p) ≡ size p
  unfolding release_connection size
  size-release_connection = elim (Bool-cases (contains c p.busy)) [
    | inl held ↦
        let lent : 0 < count c p.busy = contains-count c p.busy held in
        let absent : contains c p.idle ≡ false =
          not-contains-of_count c p.idle (omega (arith, v.once c)) in
        ground (arith, length-insert_node o c p.idle absent, length-erase c p.busy lent)
    | inr other ↦ ground arith
  ]

  -- Releasing a busy connection moves that connection and no other.
  pub release_connection-moves :
      contains c p.busy ≡ true
      → IsOneMore c p.idle (release_connection o c p).idle
        × IsOneMore c (release_connection o c p).busy p.busy
  unfolding release_connection
  release_connection-moves held =
      let lent : 0 < count c p.busy = contains-count c p.busy held in
      let absent : contains c p.idle ≡ false =
        not-contains-of_count c p.idle (omega (arith, v.once c)) in
      let real : c ≢ 0 =
        λ e. absurd (omega (arith, v.no_null, subst (λ t. 0 < count t p.busy) e lent)) in
      (
        λ a. ground (arith, count-insert_node o a c p.idle absent),
        λ a. ground (arith, count-erase a c p.busy lent),
      )
