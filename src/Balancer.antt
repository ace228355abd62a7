-- ===== src/Balancer.antt =====
-- protocol-server/src/engine/load_balancer: the context class and its three strategies. The static
-- locals of a strategy are its state; `int` values stay in range, since an index is below the
-- number of servers and a weight is a configured one. A call on an empty vector of servers divides
-- by zero, and gives `none` here.
pub mod RoundRobin
pub mod Turns
pub mod Weighted
mod Tests
use cpp_socket_programming.Prelude.{
  ℤ, pos, negsuc, ℕ, suc, ◌+◌, ◌-◌, ◌%◌, ◌≡◌, Bool, true, false, List, [], ◌∷◌, ◌++◌, Option, none,
  some, ◌==◌, ltb, if◌then◌else◌, length, get_elem?,
}

-- `(currentIndex + 1) % servers.size()`, where no index yet stands for -1.
unfoldable pub next_index : Option ℕ → ℕ → ℕ
next_index none n = 0 % n
next_index (some i) n = (i + 1) % n

-- What a number of calls in a row return, with the state that they leave.
unfoldable pub requests : {S A : Type 0} → (S → S × A) → ℕ → S → S × List A
requests select ℕ.zero s = (s, [])
requests select (suc n) s =
    let (s', chosen) = select s in let (last, rest) = requests select n s' in (last, chosen ∷ rest)

module _ {T : Type 0} where
  -- `servers`, with `addServer` and `removeAllServers`.
  unfoldable pub add_server : List T → T → List T
  add_server servers server = servers ++ server ∷ []

  unfoldable pub remove_all_servers : List T → List T
  remove_all_servers servers = []

  -- `RoundRobinStrategy::selectServer`: the new static index, and the server.
  unfoldable pub select_round_robin : Option ℕ → List T → Option ℕ × Option T
  unfolding next_index
  select_round_robin current [] = (current, none)
  select_round_robin current (s ∷ rest) =
      let i = next_index current (length (s ∷ rest)) in (some i, get_elem? (s ∷ rest) i)

  -- `RandomStrategy::selectServer`, at the value of `rand()`.
  unfoldable pub select_random : ℕ → List T → Option T
  select_random r [] = none
  select_random r (s ∷ rest) = get_elem? (s ∷ rest) (r % length (s ∷ rest))

-- A server of the weighted strategy, seen through its weight.
pub record WeightedItem : Type 0 where
  pub id : ℕ
  pub weight : ℤ

-- The two static locals of `WeightedRoundRobinStrategy::selectServer`.
pub record Turn : Type 0 where
  pub current : Option ℕ
  pub left : ℤ

-- `if (weight > 0) weight--;`
abbrev pub spend : ℤ → ℤ
spend (pos ℕ.zero) = pos 0
spend (pos (suc n)) = pos n
spend (negsuc n) = negsuc n

abbrev pub is_zero : ℤ → Bool
is_zero (pos n) = n == 0
is_zero (negsuc n) = false

-- `servers[currentIndex]` at an index that was never set is out of range.
abbrev pub server_at : Option ℕ → List WeightedItem → Option WeightedItem
server_at none servers = none
server_at (some i) servers = get_elem? servers i

abbrev pub weight_of : Option WeightedItem → ℤ
weight_of none = pos 0
weight_of (some s) = s.weight

-- `WeightedRoundRobinStrategy::selectServer`.
unfoldable pub select_weighted : Turn → List WeightedItem → Turn × Option WeightedItem
unfolding next_index
select_weighted t [] = (t, none)
select_weighted t (s ∷ rest) =
    let left = spend t.left in
    let i = next_index t.current (length (s ∷ rest)) in
    let chosen = server_at (some i) (s ∷ rest) in
    if is_zero left
    then (record { current = some i; left = weight_of chosen }, chosen)
    else (record { current = t.current; left = left }, server_at t.current (s ∷ rest))
