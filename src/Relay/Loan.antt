-- ===== src/Relay/Loan.antt =====
-- The connection that a client's thread borrows from the pool, and gives back when it ends.
use cpp_socket_programming.Prelude.{
  ℕ, ◌≡◌, refl, ap, subst, ◌⊎◌, inl, inr, true, List, [], none, some, arith, contains,
}
use cpp_socket_programming.Pool.Nodes.{IsDistinct, IsOneMore}
use cpp_socket_programming.Pool.Acquire.{
  AllRefuse, FirstUsable, get_connection-lends_first, get_connection-IsDistinct,
}
use cpp_socket_programming.Pool.Release.{release_connection-moves}
use cpp_socket_programming.Pool.{
  Driver, NodeOrder, Pool, Proxy, null_proxy, get_connection, valid, destroy_proxy,
  release_connection,
}
use cpp_socket_programming.Relay.{
  Effect, Polled, pool_rounds, check_loan, borrow, run_proxy_client_thread,
}

-- What other threads may do to the pool while this one holds a connection: they lose none, and do not give
-- this one back. Their own they may borrow and give back.
pub record IsTame (loan : ℕ) (meanwhile : Pool → Pool) : Type 0 where
  pub distinct : (p : Pool) → IsDistinct p → IsDistinct (meanwhile p)
  pub kept : (p : Pool) → contains loan p.busy ≡ true → contains loan (meanwhile p).busy ≡ true

module _ {W : Type 0} (d : Driver W) (o : NodeOrder) where
  check_loan-null :
      (r : (Proxy × Pool) × W) (p : Pool)
      → r.0 ≡ (null_proxy, p)
      → check_loan d o r ≡ (none, p, r.1)
  unfolding valid destroy_proxy
  check_loan-null r p e = rw e

  check_loan-some :
      (r : (Proxy × Pool) × W)
      → valid r.0.0 r.0.1 ≡ true
      → check_loan d o r ≡ (some r.0.0, r.0.1, r.1)
  check_loan-some r ok = rw ok

  valid-busy : (x : Proxy) (p : Pool) → valid x p ≡ true → contains x.connection p.busy ≡ true
  unfolding valid
  valid-busy x p ok = ground arith

module _ {W : Type 0} (d : Driver W) (o : NodeOrder) (meanwhile : Pool → Pool)
    (rounds : List Polled) (p : Pool) (w : W) (v : IsDistinct p)
    (tame : IsTame (get_connection d o p w).0.0.connection meanwhile) where
  -- From a pool of distinct connections, while other threads lose none and give back any but the one that
  -- this thread has borrowed: a thread whose loop ends either has found no usable connection, and ends by
  -- an exception that leaves the pool as it was; or the first usable connection is busy while the loop
  -- runs, and is idle again when the thread has ended, with no other change to what the pool holds.
  pub run_proxy_client_thread_lem :
      (effects : List Effect) (rest : List Polled)
      → pool_rounds rounds ≡ some (effects, rest)
      → let held = (get_connection d o p w).0.1 in
        let w' = (get_connection d o p w).1 in
        ((run_proxy_client_thread d o meanwhile rounds p w ≡ some ([], p, w'))
          × AllRefuse d p.idle w)
        ⊎ ((c : ℕ) × (q : Pool) × FirstUsable d p.idle w c
            × (contains c held.busy ≡ true)
            × (run_proxy_client_thread d o meanwhile rounds p w ≡ some (effects, q, w'))
            × IsOneMore c (meanwhile held).idle q.idle
            × IsOneMore c q.busy (meanwhile held).busy)
  unfolding run_proxy_client_thread borrow
  run_proxy_client_thread_lem effects rest ends = elim (get_connection-lends_first d o p w v) [
    | inl (e, refuse) ↦ inl (rw (check_loan-null d o (get_connection d o p w) p e), refuse)
    | inr (c, first, e, ok, moved, busy) ↦
        let r = get_connection d o p w in
        let held = r.0.1 in
        let mine : contains r.0.0.connection held.busy ≡ true = valid-busy d o r.0.0 held ok in
        let same : r.0.0.connection ≡ c = ap (λ x. x.connection) e in
        let lent : contains c held.busy ≡ true =
          subst (λ k. contains k held.busy ≡ true) same mine in
        let still : contains c (meanwhile held).busy ≡ true =
          subst (λ k. contains k (meanwhile held).busy ≡ true) same (tame.kept held mine) in
        let back =
          release_connection-moves o (meanwhile held)
            (tame.distinct held (get_connection-IsDistinct d o p w v)) c still in
        inr (
          c,
          release_connection o c (meanwhile held),
          first,
          lent,
          rw (check_loan-some d o r ok, ends, e) (unfold destroy_proxy in refl),
          back.0,
          back.1,
        )
  ]
