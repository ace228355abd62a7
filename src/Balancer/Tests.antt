-- ===== src/Balancer/Tests.antt =====
-- The theorems about the strategies at concrete inputs.
use cpp_socket_programming.Prelude.{pos, negsuc, ℕ, ◌≡◌, List, [], ◌∷◌, none, some, arith}
use cpp_socket_programming.Balancer.Weighted.{requests-rounds}
use cpp_socket_programming.Balancer.{WeightedItem, select_weighted, requests}

abbrev three : List ℕ
three = 10 ∷ 20 ∷ 30 ∷ []

abbrev heavy : WeightedItem
heavy = record { id = 1; weight = pos 3 }

abbrev free : WeightedItem
free = record { id = 2; weight = pos 0 }

abbrev negative : WeightedItem
negative = record { id = 3; weight = negsuc 0 }

requests-rounds_example :
    (requests
      (λ t. select_weighted t (heavy ∷ free ∷ []))
      8
      (record { current = none; left = pos 0 })).1
    ≡ some heavy
      ∷ some heavy
      ∷ some heavy
      ∷ some free
      ∷ some heavy
      ∷ some heavy
      ∷ some heavy
      ∷ some free
      ∷ []
requests-rounds_example = requests-rounds (heavy ∷ free ∷ []) 2 (omega arith) (omega arith)
