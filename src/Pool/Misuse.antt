-- ===== src/Pool/Misuse.antt =====
-- Two uses of proxies that the pool does not guard against.
use cpp_socket_programming.Prelude.{ℕ, ◌≡◌, ◌≢◌, true, false, arith, ==_self, count, contains}
use cpp_socket_programming.Pool.Nodes.{IsDistinct, IsOneMore, not-contains-of_count}
use cpp_socket_programming.Pool.Release.{release_connection-moves}
use cpp_socket_programming.Pool.Owners.{System, assigns, step}
use cpp_socket_programming.Pool.Ownership.{IsExclusive}
use cpp_socket_programming.Pool.{
  Driver, NodeOrder, Pool, Proxy, release_connection, destroy_proxy, move_assign, valid,
}

module _ (o : NodeOrder) (p : Pool) (v : IsDistinct p) (x y : Proxy) where
  -- `release_connection(std::move(x))` leaves x attached. If the connection has been lent to y in
  -- the meantime, the end of x takes it away from y: the proxy y is no longer valid.
  destroy_released-invalidates :
      x.connection ≡ y.connection
      → x.attached ≡ true
      → valid y p ≡ true
      → valid y (destroy_proxy o x p) ≡ false
  unfolding valid destroy_proxy
  destroy_released-invalidates same live held =
      let busy : contains y.connection p.busy ≡ true = ground arith in
      let moved : IsOneMore y.connection (release_connection o y.connection p).busy p.busy =
        (release_connection-moves o p v y.connection busy).1 in
      rw (live, same)
        (ground (
          arith,
          ==_self y.connection,
          v.once y.connection,
          moved y.connection,
          not-contains-of_count y.connection (release_connection o y.connection p).busy,
        ))

module _ {W : Type 0} (d : Driver W) (o : NodeOrder) (s : System W) (v : IsExclusive s) where
  -- Move assignment onto a proxy that holds a connection: that connection stays busy, and no
  -- variable holds it any more, so no destructor will give it back.
  assigns-leaks :
      (i j : ℕ)
      → i ≢ j
      → (s.vars i).attached ≡ true
      → let t = step d o (assigns i j) s in
        (count (s.vars i).connection t.pool.busy ≡ 1)
        × ((k : ℕ) → (t.vars k).attached ≡ true → (t.vars k).connection ≢ (s.vars i).connection)
  unfolding step move_assign
  assigns-leaks i j apart live = (
    ground (arith, v.held i),
    λ k a e. absurd (ground (arith, v.unique i k live, v.unique i j live, apart)),
  )
