-- ===== src/Balancer/RoundRobin.antt =====
-- The round robin serves the servers in turn.
use Prim.Native.Nat.{zero}
use native.Mathlib.Nat.{mod-lt, mod-eq_of_lt, mod-add-mod, add-mod-mod, add-mod_right}
use cpp_socket_programming.Prelude.{
  ℕ, suc, ◌+◌, ◌-◌, ◌%◌, ◌<◌, ◌≤◌, ◌≡◌, refl, ap, sym, ◌∙◌, List, [], ◌∷◌, Option, none, some,
  arith, length, get_elem?,
}
use cpp_socket_programming.Balancer.{next_index, select_round_robin, requests}

next_index-lt : (c : Option ℕ) (n : ℕ) → 0 < n → next_index c n < n
unfolding next_index
next_index-lt none n h = omega arith
next_index-lt (some i) n h = omega arith

-- The index after `k` further steps.
mod_shift : (i k n : ℕ) → ((i + 1) % n + k) % n ≡ (i + suc k) % n
mod_shift i k n = mod-add-mod (i + 1) n k ∙ ap (λ t. t % n) (omega arith)

next_index-some : (i n : ℕ) → next_index (some i) n ≡ (i + 1) % n
unfolding next_index
next_index-some i n = refl

get_elem?-lt :
    {T : Type 0} (xs : List T) (i : ℕ) → i < length xs → (x : T) × (get_elem? xs i ≡ some x)
get_elem?-lt [] i h = elim h [ ]
get_elem?-lt (x ∷ xs) zero h = (x, refl)
get_elem?-lt (x ∷ xs) (suc i) h = get_elem?-lt xs i (omega arith)

module _ {T : Type 0} where
  select_lem :
      (c : Option ℕ) (servers : List T)
      → 0 < length servers
      → select_round_robin c servers
        ≡ (some (next_index c (length servers)), get_elem? servers (next_index c (length servers)))
  unfolding select_round_robin
  select_lem c [] h = absurd (omega arith)
  select_lem c (s ∷ rest) h = refl

  -- Request number k, counted from 0, is served by the server k places after the next one, in the
  -- order of the vector and around its end.
  pub requests-kth :
      (m k : ℕ) (c : Option ℕ) (servers : List T)
      → 0 < length servers
      → k < m
      → get_elem? (requests (λ i. select_round_robin i servers) m c).1 k
        ≡ some (get_elem? servers ((next_index c (length servers) + k) % length servers))
  unfolding requests
  requests-kth zero k c servers some_server h = absurd (omega arith)
  requests-kth (suc m) zero c servers some_server h = rw (select_lem c servers some_server) (
      ap (λ t. some (get_elem? servers t))
        (sym (
          ap (λ t. t % length servers) (omega arith)
          ∙ mod-eq_of_lt (next_index-lt c (length servers) some_server))))
  requests-kth (suc m) (suc k) c servers some_server h =
      let n : ℕ = length servers in
      let i : ℕ = next_index c n in
      rw (select_lem c servers some_server) (
        requests-kth m k (some i) servers some_server (omega arith)
        ∙ ap (λ t. some (get_elem? servers t))
            (ap (λ t. (t + k) % n) (next_index-some i n) ∙ mod_shift i k n))

  -- With a server there is always an answer, whatever index an earlier list of servers left.
  pub select_round_robin-answers :
      (c : Option ℕ) (servers : List T)
      → 0 < length servers
      → let i = next_index c (length servers) in
        (s : T) × (select_round_robin c servers ≡ (some i, some s)) × (get_elem? servers i ≡ some s)
  select_round_robin-answers c servers h =
      let i = next_index c (length servers) in
      let (s, e) = get_elem?-lt servers i (next_index-lt c (length servers) h) in
      (s, select_lem c servers h ∙ ap (λ t. (some i, t)) e, e)

-- How far the index `j` is ahead of the index `start`, around `n`.
abbrev distance : ℕ → ℕ → ℕ → ℕ
distance n start j = (j + (n - start % n)) % n

distance_lem : (n start j : ℕ) → j < n → (start + distance n start j) % n ≡ j
distance_lem n start j h =
    let r = start % n in
    let r_lt : start % n < n = mod-lt start (omega arith) in
    add-mod-mod start (j + (n - r)) n
    ∙ sym (mod-add-mod start n (j + (n - r)))
    ∙ ap (λ t. t % n) {x = r + (j + (n - r))} {y = j + n} (omega arith)
    ∙ add-mod_right j n
    ∙ mod-eq_of_lt h

-- No server waits for more than one round: among any `length servers` requests in a row there is one
-- that is answered by the server at index `j`.
pub requests-fair :
    {T : Type 0} (m k j : ℕ) (c : Option ℕ) (servers : List T)
    → j < length servers
    → k + length servers ≤ m
    → (d : ℕ) × (d < length servers)
      × (get_elem? (requests (λ i. select_round_robin i servers) m c).1 (k + d)
          ≡ some (get_elem? servers j))
requests-fair m k j c servers h fits =
    let n : ℕ = length servers in
    let start : ℕ = next_index c n + k in
    let d : ℕ = distance n start j in
    let near : d < n = mod-lt _ (omega arith) in
    (
      d,
      near,
      requests-kth m (k + d) c servers (omega arith) (omega arith)
          ∙ ap (λ t. some (get_elem? servers t))
              (ap (λ t. t % n) {x = next_index c n + (k + d)} {y = start + d} (omega arith)
                ∙ distance_lem n start j h),
    )
