-- ===== src/Socket/Refs.antt =====
-- When a descriptor is closed.
use cpp_socket_programming.Prelude.{
  ℕ, zero, suc, ◌+◌, ◌<◌, ◌≤◌, ◌≡◌, List, [], ◌∷◌, Option, none, some, arith, ◌==◌, ==_self, ltb,
  if◌then◌else◌, length, get_or, set,
}
use cpp_socket_programming.Socket.Life.{Handle, Store, slot, construct, share, drop_object}

abbrev pub holds : ℕ → Option Handle → ℕ
holds c none = 0
holds c (some h) = if h.counter == c then 1 else 0

-- How many objects share a counter.
abbrev pub holders : ℕ → List (Option Handle) → ℕ
holders c [] = 0
holders c (x ∷ xs) = holds c x + holders c xs

-- How often the descriptor behind a counter has been closed.
abbrev pub closings : ℕ → List Handle → ℕ
closings c [] = 0
closings c (h ∷ rest) = (if h.counter == c then 1 else 0) + closings c rest

pub holders-set :
    (c i : ℕ) (x : Option Handle) (xs : List (Option Handle))
    → i < length xs
    → holders c (set xs i x) + holds c (get_or xs i none) ≡ holders c xs + holds c x
holders-set c i x [] h = absurd (omega arith)
holders-set c zero x (y ∷ ys) h = omega arith
holders-set c (suc i) x (y ∷ ys) h = omega (arith, holders-set c i x ys (omega arith))

pub slot-lt :
    (i : ℕ) (xs : List (Option Handle)) (h : Handle) → get_or xs i none ≡ some h → i < length xs
slot-lt i [] h e = cc
slot-lt zero (x ∷ xs) h e = omega arith
slot-lt (suc i) (x ∷ xs) h e = omega (arith, slot-lt i xs h e)

pub holders-slot :
    (i : ℕ) (xs : List (Option Handle)) (h : Handle)
    → get_or xs i none ≡ some h
    → 0 < holders h.counter xs
holders-slot i [] h e = cc
holders-slot zero (x ∷ xs) h e = ground (arith, ==_self h.counter)
holders-slot (suc i) (x ∷ xs) h e = omega (arith, holders-slot i xs h e)

-- A counter is the number of the objects that share it; and the descriptor behind a counter that has
-- been handed out has been closed once if no object is left, and not at all otherwise.
pub record IsCounted (s : Store) : Type 0 where
  pub counted : (c : ℕ) → c < s.fresh → s.counters c ≡ holders c s.objects
  pub known : (c : ℕ) → s.fresh ≤ c → (holders c s.objects ≡ 0) × (closings c s.closed ≡ 0)
  pub once :
      (c : ℕ)
      → c < s.fresh
      → closings c s.closed + (if ltb 0 (holders c s.objects) then 1 else 0) ≡ 1

pub construct-IsCounted :
    (i fd : ℕ) (s : Store)
    → i < length s.objects
    → slot i s ≡ none
    → IsCounted s
    → IsCounted (construct i fd s)
unfolding construct
construct-IsCounted i fd s lt vacant v =
    let moved = λ (c : ℕ).
      holders-set c i (some (record { counter = s.fresh; descriptor = fd })) s.objects lt in
    record {
      counted = λ c h. ground (arith, moved c, vacant, v.counted c, v.known s.fresh);
      known = λ c h. ground (arith, moved c, vacant, v.known c);
      once = λ c h. ground (arith, moved c, vacant, v.once c, v.known s.fresh);
    }

pub share-IsCounted :
    (i j : ℕ) (h : Handle) (s : Store)
    → i < length s.objects
    → slot i s ≡ none
    → slot j s ≡ some h
    → IsCounted s
    → IsCounted (share i h s)
unfolding share
share-IsCounted i j h s lt vacant e v =
    let moved = λ (c : ℕ). holders-set c i (some h) s.objects lt in
    let shared = holders-slot j s.objects h e in
    record {
      counted = λ c k. ground (arith, moved c, vacant, v.counted c, v.known h.counter);
      known = λ c k. ground (arith, moved c, vacant, v.known c, v.known h.counter, shared);
      once = λ c k. ground (arith, moved c, vacant, v.once c, v.known h.counter, shared);
    }

pub drop-IsCounted :
    (i : ℕ) (h : Handle) (s : Store)
    → slot i s ≡ some h
    → IsCounted s
    → IsCounted (drop_object i h s)
unfolding drop_object
drop-IsCounted i h s e v =
    let moved = λ (c : ℕ). holders-set c i none s.objects (slot-lt i s.objects h e) in
    let shared = holders-slot i s.objects h e in
    record {
      counted = λ c k. ground (arith, moved c, e, v.counted c, v.known h.counter);
      known = λ c k. ground (arith, moved c, e, v.known c, v.known h.counter, shared);
      once = λ c k. ground (
        arith,
        moved c,
        e,
        v.once c,
        v.counted c,
        v.counted h.counter,
        v.known h.counter,
        shared,
      );
    }
