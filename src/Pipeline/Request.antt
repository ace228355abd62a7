-- ===== src/Pipeline/Request.antt =====
-- What a client's request is, and when the thread answers it.
use cpp_socket_programming.Prelude.{ℕ, ◌+◌, ◌≤◌, ◌<◌, ◌≡◌, ◌≢◌, List, [], ◌∷◌, ◌++◌, some, ◌⊎◌}
use cpp_socket_programming.Pipeline.{Bytes, Poll, quiet, received, read_request}

abbrev pub quiets : List Poll → ℕ
quiets [] = 0
quiets (quiet ∷ rest) = 1 + quiets rest
quiets (received b ∷ rest) = quiets rest

-- All that was received, one piece after the other.
abbrev pub gathered : List Poll → Bytes
gathered [] = []
gathered (quiet ∷ rest) = gathered rest
gathered (received b ∷ rest) = b ++ gathered rest

abbrev pub AllData : List Poll → Type 0
AllData [] = Unit {0}
AllData (quiet ∷ rest) = AllData rest
AllData (received b ∷ rest) = (b ≢ []) × AllData rest

-- A round that ends the loop, after so many quiet ones: the client is gone, or this is quiet round
-- number 100.
abbrev pub IsLast : ℕ → Poll → Type 0
IsLast n quiet = n ≡ 99
IsLast n (received b) = b ≡ []

-- The rounds up to the last one that the loop needs.
pub record IsCut (retry : ℕ) (polls before : List Poll) (last : Poll) (rest : List Poll)
    : Type 0 where
  pub parts : polls ≡ before ++ last ∷ rest
  pub data_before : AllData before
  pub few : retry + quiets before < 100
  pub is_last : IsLast (retry + quiets before) last

-- The end of the client is among the rounds.
abbrev pub IsGone : List Poll → Type 0
IsGone [] = ⊥
IsGone (quiet ∷ rest) = IsGone rest
IsGone (received [] ∷ rest) = Unit {0}
IsGone (received (b ∷ bytes) ∷ rest) = IsGone rest

-- There are quiet rounds enough, or the client goes.
abbrev pub IsEnding : ℕ → List Poll → Type 0
IsEnding retry polls = (100 ≤ retry + quiets polls) ⊎ IsGone polls

abbrev Cut : ℕ → Bytes → List Poll → Type 0
Cut retry request polls =
    (before : List Poll) × (last : Poll) × (rest : List Poll) × IsCut retry polls before last rest
    × (read_request retry request polls ≡ some (request ++ gathered before, rest))
