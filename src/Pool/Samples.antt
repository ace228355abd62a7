-- ===== src/Pool/Samples.antt =====
-- A pool with a driver, for the tests.
use cpp_socket_programming.Prelude.{
  ℕ, ◌+◌, ◌≤◌, ◌≡◌, refl, true, false, List, [], ◌∷◌, ◌==◌, if◌then◌else◌, arith, length, count,
}
use cpp_socket_programming.Pool.Nodes.{total, IsDistinct}
use cpp_socket_programming.Pool.{returned, Driver, NodeOrder, Pool}

pub count_cons : (a c : ℕ) (l : List ℕ) → count a (c ∷ l) ≡ (if c == a then 1 else 0) + count a l
unfolding count
count_cons a c l = refl

pub length_cons : (c : ℕ) (l : List ℕ) → length (c ∷ l) ≡ length l + 1
length_cons c l = omega arith

-- New nodes stand in front.
abbrev pub front : NodeOrder
front = record { place = λ c l. c ∷ l; count-place = count_cons; length-place = length_cons }

-- Only connection 8 is healthy, and none can be connected again.
abbrev pub flaky_driver : Driver ℕ
flaky_driver = record {
  is_healthy = λ c w. (returned (c == 8), w);
  connect = λ c w. (returned false, w + 1);
  heart_beat = λ c w. (returned true, w);
}

abbrev pub two : Pool
two = record { idle = 7 ∷ 8 ∷ []; busy = 9 ∷ [] }

two_once : (a : ℕ) → total a two ≤ 1
unfolding count
two_once a = ground arith

pub two-IsDistinct : IsDistinct two
unfolding count
two-IsDistinct = record { once = two_once; no_null = refl }
