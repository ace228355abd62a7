-- ===== src/Pool/Nodes.antt =====
-- The pool's connections as a set of nodes in two maps.
use cpp_socket_programming.Prelude.{
  ℕ, ◌+◌, ◌≤◌, ◌≡◌, false, List, ◌==◌, if◌then◌else◌, arith, length, count, contains,
  contains-count,
}
use cpp_socket_programming.Pool.{NodeOrder, Pool, insert_node}

-- How often a connection stands in the pool, idle or busy.
abbrev pub total : ℕ → Pool → ℕ
total a p = count a p.idle + count a p.busy

-- No connection stands in the pool twice, and none is null.
pub record IsDistinct (p : Pool) : Type 0 where
  pub once : (a : ℕ) → total a p ≤ 1
  pub no_null : total 0 p ≡ 0

-- The second map is the first one with one more node, `c`.
abbrev pub IsOneMore : ℕ → List ℕ → List ℕ → Type 0
IsOneMore c l m = (a : ℕ) → count a m ≡ (if c == a then 1 else 0) + count a l

pub count-insert_node :
    (o : NodeOrder) (a c : ℕ) (l : List ℕ)
    → contains c l ≡ false
    → count a (insert_node o c l) ≡ (if c == a then 1 else 0) + count a l
unfolding insert_node
count-insert_node o a c l h = rw h (o.count-place a c l)

pub length-insert_node :
    (o : NodeOrder) (c : ℕ) (l : List ℕ)
    → contains c l ≡ false
    → length (insert_node o c l) ≡ length l + 1
unfolding insert_node
length-insert_node o c l h = rw h (o.length-place c l)

-- A connection that stands in one half of a distinct pool does not stand in the other.
pub not-contains-of_count : (a : ℕ) (xs : List ℕ) → count a xs ≡ 0 → contains a xs ≡ false
not-contains-of_count a xs h = ground (arith, contains-count a xs)
