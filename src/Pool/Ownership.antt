-- ===== src/Pool/Ownership.antt =====
-- Who holds which connection: no history loses one, and only an explicit release breaks the rule
-- that a busy connection has one holder.
use cpp_socket_programming.Prelude.{
  ℕ, ◌≤◌, ◌≡◌, refl, ap, ◌≢◌, inl, inr, true, false, List, [], ◌∷◌, arith, Bool-cases, ==_self,
  count, contains, count-contains,
}
use cpp_socket_programming.Pool.Nodes.{total, IsDistinct, IsOneMore}
use cpp_socket_programming.Pool.Acquire.{
  total-get_connection, get_connection-IsDistinct, get_connection-lends_first,
}
use cpp_socket_programming.Pool.Release.{
  total-release_connection, release_connection-IsDistinct, release_connection-moves,
}
use cpp_socket_programming.Pool.Owners.{
  System, Action, gets, constructs, assigns, destroys, releases, step, run,
}
use cpp_socket_programming.Pool.{
  Driver, NodeOrder, Pool, Proxy, get_connection, release_connection, destroy_proxy, release_proxy,
  move_construct, move_assign,
}

module _ {W : Type 0} (d : Driver W) (o : NodeOrder) where
  total-step :
      (s : System W) (act : Action)
      → IsDistinct s.pool
      → (a : ℕ) → total a (step d o act s).pool ≡ total a s.pool
  unfolding step destroy_proxy release_proxy
  total-step s (gets i) v a = total-get_connection d o s.pool s.world v a
  total-step s (constructs i j) v a = refl
  total-step s (assigns i j) v a = ground arith
  total-step s (destroys i) v a =
      ground (arith, total-release_connection o s.pool v (s.vars i).connection a)
  total-step s (releases i) v a = total-release_connection o s.pool v (s.vars i).connection a

  step-IsDistinct :
      (s : System W) (act : Action) → IsDistinct s.pool → IsDistinct (step d o act s).pool
  step-IsDistinct s act v = record {
    once = λ a. omega (arith, total-step s act v a, v.once a);
    no_null = omega (arith, total-step s act v 0, v.no_null);
  }

  -- Whatever the program does with its proxies, the pool keeps exactly the connections that it was
  -- made with, each of them once.
  pub total-run :
      (acts : List Action) (s : System W)
      → IsDistinct s.pool
      → (a : ℕ)
      → (total a (run d o acts s).pool ≡ total a s.pool) × (total a (run d o acts s).pool ≤ 1)
  unfolding run
  total-run [] s v a = (refl, v.once a)
  total-run (act ∷ rest) s v a =
      omega
        (arith, total-step s act v a, total-run rest (step d o act s) (step-IsDistinct s act v) a)

-- Every proxy with a pool holds a busy connection, and no two hold the same one.
pub record IsExclusive {W : Type 0} (s : System W) : Type 0 where
  pub distinct : IsDistinct s.pool
  pub held : (i : ℕ) → (s.vars i).attached ≡ true → count (s.vars i).connection s.pool.busy ≡ 1
  pub unique :
      (i j : ℕ)
      → (s.vars i).attached ≡ true
      → (s.vars j).attached ≡ true
      → (s.vars i).connection ≡ (s.vars j).connection
      → i ≡ j

-- Every call but the explicit `release_connection`.
abbrev pub IsCareful : Action → Type 0
IsCareful (releases i) = ⊥
IsCareful _ = Unit {0}

abbrev pub AllCareful : List Action → Type 0
AllCareful [] = Unit {0}
AllCareful (act ∷ rest) = IsCareful act × AllCareful rest

module _ {W : Type 0} (d : Driver W) (o : NodeOrder) (s : System W) (v : IsExclusive s) where
  -- A loaned connection is new to every variable.
  loan_fresh :
      (c : ℕ) (rest : List ℕ)
      → IsOneMore c rest s.pool.idle
      → (j : ℕ) → (s.vars j).attached ≡ true
      → (s.vars j).connection ≢ c
  loan_fresh c rest idle j a e =
      absurd (ground (arith, v.distinct.once c, idle c, ==_self c, v.held j))

  gets-IsExclusive : (i : ℕ) → IsExclusive (step d o (gets i) s)
  unfolding step
  gets-IsExclusive i = elim (get_connection-lends_first d o s.pool s.world v.distinct) [
    | inl (e, _) ↦
        let detached : (get_connection d o s.pool s.world).0.0.attached ≡ false =
          ap (λ (r : Proxy × Pool). r.0.attached) e in
        record {
          distinct = get_connection-IsDistinct d o s.pool s.world v.distinct;
          held = λ j a. ground (arith, v.held j);
          unique = λ j k a b e. ground (arith, v.unique j k);
        }
    | inr (c, _, proxy, _, idle, busy) ↦
        let named : (get_connection d o s.pool s.world).0.0.connection ≡ c =
          ap (λ (r : Proxy). r.connection) proxy in
        record {
          distinct = get_connection-IsDistinct d o s.pool s.world v.distinct;
          held = λ j a.
              ground
                (arith, v.held j, v.distinct.once c, idle c, busy c, busy (s.vars j).connection);
          unique = λ j k a b e.
              ground (arith, v.unique j k, loan_fresh c _ idle j, loan_fresh c _ idle k);
        }
  ]

  constructs-IsExclusive : (i j : ℕ) → IsExclusive (step d o (constructs i j) s)
  unfolding step move_construct
  constructs-IsExclusive i j = record {
    distinct = v.distinct;
    held = λ k a. ground (arith, v.held k, v.held j);
    unique = λ k l a b e. ground (arith, v.unique k l, v.unique k j, v.unique j l);
  }

  assigns-IsExclusive : (i j : ℕ) → IsExclusive (step d o (assigns i j) s)
  unfolding step move_assign
  assigns-IsExclusive i j = record {
    distinct = ground (arith, v.distinct);
    held = λ k a. ground (arith, v.held k, v.held j);
    unique = λ k l a b e. ground (arith, v.unique k l, v.unique k j, v.unique j l);
  }

  destroys-IsExclusive : (i : ℕ) → IsExclusive (step d o (destroys i) s)
  unfolding step destroy_proxy
  destroys-IsExclusive i = elim (Bool-cases (s.vars i).attached) [
    | inl live ↦
        let c : ℕ = (s.vars i).connection in
        let busy : contains c s.pool.busy ≡ true =
          count-contains c s.pool.busy (omega (arith, v.held i live)) in
        let moved : IsOneMore c (release_connection o c s.pool).busy s.pool.busy =
          (release_connection-moves o s.pool v.distinct c busy).1 in
        record {
          distinct = rw live (release_connection-IsDistinct o s.pool v.distinct c);
          held = λ j a. ground (arith, v.held j, v.unique i j live, moved (s.vars j).connection);
          unique = λ j k a b e. ground (arith, v.unique j k);
        }
    | inr dead ↦ record {
      distinct = rw dead v.distinct;
      held = λ j a. ground (arith, v.held j);
      unique = λ j k a b e. ground (arith, v.unique j k);
    }
  ]

  step-IsExclusive : (act : Action) → IsCareful act → IsExclusive (step d o act s)
  step-IsExclusive (gets i) h = gets-IsExclusive i
  step-IsExclusive (constructs i j) h = constructs-IsExclusive i j
  step-IsExclusive (assigns i j) h = assigns-IsExclusive i j
  step-IsExclusive (destroys i) h = destroys-IsExclusive i
  step-IsExclusive (releases i) h = absurd h

module _ {W : Type 0} (d : Driver W) (o : NodeOrder) where
  -- As long as a program leaves the return of connections to the destructors, every attached proxy
  -- holds a busy connection, and no two attached proxies hold the same one.
  pub run-IsExclusive :
      (acts : List Action) (s : System W)
      → AllCareful acts
      → IsExclusive s
      → IsExclusive (run d o acts s)
  unfolding run
  run-IsExclusive [] s h v = v
  run-IsExclusive (act ∷ rest) s h v =
      run-IsExclusive rest (step d o act s) h.1 (step-IsExclusive d o s v act h.0)
