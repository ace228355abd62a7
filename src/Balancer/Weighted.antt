-- ===== src/Balancer/Weighted.antt =====
-- The weighted round robin gives each server as many requests in a row as its weight says.
use Prim.Native.Nat.{zero}
use native.Mathlib.Nat.{mod-eq_of_lt, add-zero, mod_self, zero-mod}
use cpp_socket_programming.Prelude.{
  ℤ, pos, negsuc, ℕ, suc, ◌+◌, ◌*◌, ◌%◌, ◌<◌, ◌≡◌, refl, ap, sym, ◌∙◌, List, [], ◌∷◌, ◌++◌, Option,
  none, some, arith, length, get_elem?, replicate, length-append, append_assoc,
}
use cpp_socket_programming.Balancer.Turns.{
  share, shares, IsNonneg, one_round, IsSpent, get_elem?-middle, requests-append, select-next,
  select-stay, select-negative,
}
use cpp_socket_programming.Balancer.{WeightedItem, Turn, next_index, select_weighted, requests}

module _ (servers : List WeightedItem) where
  abbrev call : Turn → Turn × Option WeightedItem
  call t = select_weighted t servers

  stays :
      (i m : ℕ) (s : WeightedItem)
      → get_elem? servers i ≡ some s
      → requests call m (record { current = some i; left = pos (suc m) })
        ≡ (record { current = some i; left = pos 1 }, replicate m (some s))
  unfolding requests
  stays i zero s e = refl
  stays i (suc m) s e =
      rw (select-stay servers i m s e)
        (ap (λ (r : Turn × List (Option WeightedItem)). (r.0, some s ∷ r.1)) (stays i m s e))

  -- The run of one server.
  run_of :
      (t : Turn) (i id : ℕ) (w : ℤ)
      → next_index t.current (length servers) ≡ i
      → get_elem? servers i ≡ some (record { id = id; weight = w })
      → IsSpent t
      → 0 < share w
      → (u : Turn) × (requests call (share w) t
          ≡ (u, replicate (share w) (some (record { id = id; weight = w }))))
        × IsSpent u
        × (u.current ≡ some i)
  unfolding requests
  run_of t i id (pos zero) next e spent h = (
    record { current = some i; left = pos 0 },
    rw (select-next servers t i _ next e spent),
    refl,
    refl,
  )
  run_of t i id (pos (suc m)) next e spent h = (
    record { current = some i; left = pos 1 },
    rw (select-next servers t i _ next e spent) (
        ap
          (λ (r : Turn × List (Option WeightedItem)).
            (r.0, some (record { id = id; weight = pos (suc m) }) ∷ r.1))
          (stays i m _ e)),
    refl,
    refl,
  )
  run_of t i id (negsuc m) next e spent h = absurd (omega arith)

  -- The turn is spent, and the next server is the one at `k`, around the end of the vector.
  abbrev IsReady : ℕ → Turn → Type 0
  IsReady k t = IsSpent t × (next_index t.current (length servers) ≡ k % length servers)

  round_from :
      (before after : List WeightedItem) (t : Turn)
      → servers ≡ before ++ after
      → IsReady (length before) t
      → IsNonneg after
      → (u : Turn) × (requests call (shares after) t ≡ (u, one_round after))
        × IsReady (length servers) u
  unfolding requests next_index
  round_from before [] t split ready h = (
    t,
    refl,
    (
      ready.0,
      ready.1
          ∙ ap (λ k. k % length servers)
              (sym (ap length split ∙ length-append before [] ∙ add-zero (length before))),
    ),
  )
  round_from before (s ∷ after) t split ready h =
      let n : ℕ = length servers in
      let i : ℕ = length before in
      let small : i < n = omega (arith, ap length split, length-append before (s ∷ after)) in
      let (u, e, spent, here) =
        run_of t i s.id s.weight (ready.1 ∙ mod-eq_of_lt small)
          (ap (λ l. get_elem? l i) split ∙ get_elem?-middle before s after) ready.0 h.0 in
      let turned : next_index u.current n ≡ length (before ++ s ∷ []) % n =
        ap (λ c. next_index c n) here
        ∙ ap (λ k. k % n) (omega (arith, length-append before (s ∷ []))) in
      let (u', e', ready') =
        round_from (before ++ s ∷ []) after u (split ∙ sym (append_assoc before (s ∷ []) after))
          (spent, turned) h.1 in
      (
        u',
        requests-append call (share s.weight) (shares after) t
            ∙ ap
                (λ (r : Turn × List (Option WeightedItem)). (
                  (requests call (shares after) r.0).0,
                  r.1 ++ (requests call (shares after) r.0).1,
                ))
                e
            ∙ ap
                (λ (r : Turn × List (Option WeightedItem)).
                  (r.0, replicate (share s.weight) (some s) ++ r.1))
                e',
        ready',
      )

  abbrev rounds : ℕ → List (Option WeightedItem)
  rounds zero = []
  rounds (suc k) = one_round servers ++ rounds k

  rounds_from :
      (k : ℕ) (t : Turn)
      → IsReady 0 t
      → 0 < length servers
      → IsNonneg servers
      → (requests call (k * shares servers) t).1 ≡ rounds k
  unfolding requests
  rounds_from zero t ready some_server h =
      ap (λ m. (requests call m t).1) {x = 0 * shares servers} {y = 0} (omega arith)
  rounds_from (suc k) t ready some_server h =
      let n : ℕ = length servers in
      let (u, e, ready') = round_from [] servers t refl ready h in
      let again : IsReady 0 u = (ready'.0, ready'.1 ∙ mod_self n ∙ sym (zero-mod n)) in
      let rest : ℕ = k * shares servers in
      ap (λ m. (requests call m t).1) {x = suc k * shares servers} {y = shares servers + rest}
        (omega arith)
      ∙ ap (λ (r : Turn × List (Option WeightedItem)). r.1)
          (requests-append call (shares servers) rest t)
      ∙ ap (λ (r : Turn × List (Option WeightedItem)). r.1 ++ (requests call rest r.0).1) e
      ∙ ap (λ l. one_round servers ++ l) (rounds_from k u again some_server h)

  -- Where no weight is negative, the calls go round the servers for ever: in every round each server
  -- is chosen as many times in a row as its weight, or once if the weight is 0, in the vector's order.
  pub requests-rounds :
      (k : ℕ)
      → 0 < length servers
      → IsNonneg servers
      → (requests call (k * shares servers) (record { current = none; left = pos 0 })).1 ≡ rounds k
  unfolding next_index
  requests-rounds k = rounds_from k (record { current = none; left = pos 0 }) (refl, refl)

  stuck :
      (k i m : ℕ) (s : WeightedItem)
      → get_elem? servers i ≡ some s
      → (requests call k (record { current = some i; left = negsuc m })).1 ≡ replicate k (some s)
  unfolding requests
  stuck zero i m s e = refl
  stuck (suc k) i m s e =
      rw (select-negative servers i m s e) (ap (λ l. some s ∷ l) (stuck k i m s e))

  -- A server with a negative weight is never left again: if the turn before it is used up, the next
  -- request and every later one go to it, and the others starve.
  pub requests-negative :
      (k i id m : ℕ) (t : Turn)
      → IsSpent t
      → next_index t.current (length servers) ≡ i
      → get_elem? servers i ≡ some (record { id = id; weight = negsuc m })
      → (requests call (suc k) t).1
        ≡ replicate (suc k) (some (record { id = id; weight = negsuc m }))
  unfolding requests
  requests-negative k i id m t spent next e =
      rw (select-next servers t i _ next e spent)
        (ap (λ l. some (record { id = id; weight = negsuc m }) ∷ l) (stuck k i m _ e))
