-- ===== src/Pool/Setup.antt =====
-- The constructor of the pool.
use cpp_socket_programming.Prelude.{
  ℕ, ◌+◌, ◌≤◌, ◌≡◌, refl, false, List, [], ◌∷◌, arith, length, count, contains, ==_self,
}
use cpp_socket_programming.Pool.Nodes.{
  IsDistinct, count-insert_node, length-insert_node, not-contains-of_count,
}
use cpp_socket_programming.Pool.{
  NodeOrder, insert_node, fill_idle, make_pool, size_idle, size_busy, size,
}

module _ (o : NodeOrder) where
  count-fill_idle :
      (cs idle : List ℕ)
      → ((a : ℕ) → count a cs + count a idle ≤ 1)
      → (a : ℕ) → count a (fill_idle o cs idle) ≡ count a cs + count a idle
  unfolding fill_idle count
  count-fill_idle [] idle all a = omega arith
  count-fill_idle (c ∷ cs) idle all a =
      let new : contains c idle ≡ false =
        not-contains-of_count c idle (ground (arith, all c, ==_self c)) in
      omega (
        arith,
        count-fill_idle cs (insert_node o c idle)
            (λ x. omega (arith, all x, count-insert_node o x c idle new)) a,
        count-insert_node o a c idle new,
      )

  length-fill_idle :
      (cs idle : List ℕ)
      → ((a : ℕ) → count a cs + count a idle ≤ 1)
      → length (fill_idle o cs idle) ≡ length cs + length idle
  unfolding fill_idle count
  length-fill_idle [] idle all = omega arith
  length-fill_idle (c ∷ cs) idle all =
      let new : contains c idle ≡ false =
        not-contains-of_count c idle (ground (arith, all c, ==_self c)) in
      omega (
        arith,
        length-fill_idle cs (insert_node o c idle)
            (λ x. omega (arith, all x, count-insert_node o x c idle new)),
        length-insert_node o c idle new,
      )

  -- A pool made from distinct connections that are not null holds each of them once, all idle.
  pub make_pool_lem :
      (cs : List ℕ)
      → ((a : ℕ) → count a cs ≤ 1)
      → count 0 cs ≡ 0
      → IsDistinct (make_pool o cs)
        × ((a : ℕ) → count a (make_pool o cs).idle ≡ count a cs)
        × (size_idle (make_pool o cs) ≡ length cs)
        × (size_busy (make_pool o cs) ≡ 0)
        × (size (make_pool o cs) ≡ length cs)
  unfolding make_pool size_idle size_busy size count
  make_pool_lem cs once real =
      let counted : (a : ℕ) → count a (fill_idle o cs []) ≡ count a cs =
        λ a. omega (arith, count-fill_idle cs [] (λ x. omega (arith, once x)) a) in
      let counted_all = length-fill_idle cs [] (λ x. omega (arith, once x)) in
      (
        record {
          once = λ a. omega (arith, counted a, once a);
          no_null = omega (arith, counted 0, real);
        },
        counted,
        omega (arith, counted_all),
        refl,
        omega (arith, counted_all),
      )
