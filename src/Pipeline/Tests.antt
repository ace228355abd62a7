-- ===== src/Pipeline/Tests.antt =====
-- The pipeline with a handler that sends the request back and counts its calls.
use cpp_socket_programming.Prelude.{ℕ, ◌+◌, ◌≡◌, refl, [], ◌∷◌, List, some, replicate}
use cpp_socket_programming.Pipeline.{Bytes, Poll, quiet, received, sends, closes, pipeline}

abbrev echo : Bytes → ℕ → Bytes × ℕ
echo request calls = (request, calls + 1)

abbrev slow_client : List Poll
slow_client = received (71 ∷ []) ∷ quiet ∷ received (69 ∷ 84 ∷ []) ∷ replicate 120 quiet

pipeline_slow :
    pipeline (some echo) slow_client 0
    ≡ some ((sends (71 ∷ 69 ∷ 84 ∷ []) ∷ closes ∷ [], 1), replicate 21 quiet)
unfolding pipeline
pipeline_slow = refl

-- A client that goes at once.
gone_at_once : pipeline (some echo) (received [] ∷ []) 0 ≡ some ((closes ∷ [], 0), [])
unfolding pipeline
gone_at_once = refl
