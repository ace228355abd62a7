-- ===== src/Pool/Acquire.antt =====
-- `get_connection`: which connection it lends, and that none is lost or lent twice.
use cpp_socket_programming.Prelude.{
  ℕ, ◌<◌, ◌≡◌, refl, ap, subst, ◌≢◌, ◌⊎◌, inl, inr, true, false, List, [], ◌∷◌, ◌++◌, none, some,
  arith, Bool-cases, count, contains, count-contains, count-erase, length-erase, count-append,
}
use cpp_socket_programming.Pool.Nodes.{
  total, IsDistinct, IsOneMore, count-insert_node, length-insert_node, not-contains-of_count,
}
use cpp_socket_programming.Pool.{
  Driver, NodeOrder, Pool, Proxy, null_proxy, insert_node, check_connect, first_usable, lend,
  get_connection, size, valid,
}

module _ {W : Type 0} (d : Driver W) where
  -- Every connection of the list fails its check, one after the other.
  abbrev pub AllRefuse : List ℕ → W → Type 0
  AllRefuse [] w = Unit
  AllRefuse (c ∷ cs) w = ((check_connect d c w).0 ≡ false) × AllRefuse cs (check_connect d c w).1

  -- The state after the checks of a list.
  abbrev pub after_checks : List ℕ → W → W
  after_checks [] w = w
  after_checks (c ∷ cs) w = after_checks cs (check_connect d c w).1

  abbrev pub FirstUsable : List ℕ → W → ℕ → Type 0
  FirstUsable xs w c =
      (before : List ℕ) × (after : List ℕ) × (xs ≡ before ++ c ∷ after)
      × AllRefuse before w
      × ((check_connect d c (after_checks before w)).0 ≡ true)

  first_usable-cases :
      (xs : List ℕ) (w : W)
      → (((first_usable d xs w).0 ≡ none) × AllRefuse xs w)
        ⊎ ((c : ℕ) × ((first_usable d xs w).0 ≡ some c) × FirstUsable xs w c)
  unfolding first_usable
  first_usable-cases [] w = inl (refl, tt)
  first_usable-cases (c ∷ cs) w = elim (Bool-cases (check_connect d c w).0) [
    | inl usable ↦ inr (c, ground arith, ([], cs, refl, tt, usable))
    | inr refused ↦ elim (first_usable-cases cs (check_connect d c w).1) [
      | inl (e, all) ↦ inl (ground arith, (refused, all))
      | inr (x, e, (before, after, split, all, usable)) ↦
          inr (x, ground arith, (c ∷ before, after, ap (λ t. c ∷ t) split, (refused, all), usable))
    ]
  ]

count-found : (before after : List ℕ) (c : ℕ) → 0 < count c (before ++ c ∷ after)
unfolding count
count-found before after c = omega (arith, count-append c before (c ∷ after), here)
  where
    here : 0 < count c (c ∷ after)
    here = ground arith

module _ (o : NodeOrder) (p : Pool) (v : IsDistinct p) (c : ℕ) (idle : 0 < count c p.idle) where
  total-lend : (a : ℕ) → total a (lend o p (some c)).1 ≡ total a p
  unfolding lend
  total-lend a = ground (
    arith,
    v.once c,
    count-insert_node o a c p.busy (not-contains-of_count c p.busy (omega (arith, v.once c))),
    count-erase a c p.idle idle,
  )

  size-lend : size (lend o p (some c)).1 ≡ size p
  unfolding lend size
  size-lend = omega (
    arith,
    v.once c,
    length-insert_node o c p.busy (not-contains-of_count c p.busy (omega (arith, v.once c))),
    length-erase c p.idle idle,
  )

  not-null : c ≢ 0
  not-null e = absurd (omega (arith, v.no_null, subst (λ t. 0 < count t p.idle) e idle))

  -- The proxy and the pool after a loan of `c`.
  -- The proxy and the pool after a loan of `c`.
  lend_lem :
      ((lend o p (some c)).0 ≡ record { attached = true; connection = c })
      × (valid (lend o p (some c)).0 (lend o p (some c)).1 ≡ true)
      × IsOneMore c (lend o p (some c)).1.idle p.idle
      × IsOneMore c p.busy (lend o p (some c)).1.busy
  unfolding lend valid
  lend_lem =
      let absent : contains c p.busy ≡ false =
        not-contains-of_count c p.busy (omega (arith, v.once c)) in
      let busy : IsOneMore c p.busy (insert_node o c p.busy) =
        λ a. count-insert_node o a c p.busy absent in
      (
        refl,
        ground (arith, not-null, busy c, count-contains c (insert_node o c p.busy)),
        λ a. omega (arith, count-erase a c p.idle idle),
        busy,
      )

-- The result of `get_connection`, with the pool it leaves.
module _ {W : Type 0} (d : Driver W) (o : NodeOrder) (p : Pool) (w : W) where
  abbrev result : Proxy × Pool
  result = (get_connection d o p w).0

  get_connection-cases :
      ((result ≡ (null_proxy, p)) × AllRefuse d p.idle w)
      ⊎ ((c : ℕ) × (result ≡ lend o p (some c)) × FirstUsable d p.idle w c)
  unfolding get_connection
  get_connection-cases = elim (first_usable-cases d p.idle w) [
    | inl (e, all) ↦ inl (ap (lend o p) e, all)
    | inr (c, e, first) ↦ inr (c, ap (lend o p) e, first)
  ]

  first-idle : (c : ℕ) → FirstUsable d p.idle w c → 0 < count c p.idle
  first-idle c (before, after, split, _, _) = rw split (count-found before after c)

  -- No call of `get_connection` loses a connection or makes one up.
  pub total-get_connection : IsDistinct p → (a : ℕ) → total a result.1 ≡ total a p
  total-get_connection v a = elim get_connection-cases [
    | inl (e, _) ↦ rw e
    | inr (c, e, first) ↦ rw e (total-lend o p v c (first-idle c first) a)
  ]

  pub get_connection-IsDistinct : IsDistinct p → IsDistinct result.1
  get_connection-IsDistinct v = record {
    once = λ a. omega (arith, total-get_connection v a, v.once a);
    no_null = omega (arith, total-get_connection v 0, v.no_null);
  }

  pub size-get_connection : IsDistinct p → size result.1 ≡ size p
  size-get_connection v = elim get_connection-cases [
    | inl (e, _) ↦ rw e
    | inr (c, e, first) ↦ rw e (size-lend o p v c (first-idle c first))
  ]

  -- Either every idle connection fails its check and the null proxy comes back with the pool as it
  -- was, or the first one in iteration order that passes is lent: it alone leaves the idle ones, it
  -- alone joins the busy ones, and its proxy is valid.
  pub get_connection-lends_first :
      IsDistinct p
      → ((result ≡ (null_proxy, p)) × AllRefuse d p.idle w)
        ⊎ ((c : ℕ) × FirstUsable d p.idle w c
            × (result.0 ≡ record { attached = true; connection = c })
            × (valid result.0 result.1 ≡ true)
            × IsOneMore c result.1.idle p.idle
            × IsOneMore c p.busy result.1.busy)
  get_connection-lends_first v = elim get_connection-cases [
    | inl none_left ↦ inl none_left
    | inr (c, e, first) ↦
        let r = lend_lem o p v c (first-idle c first) in
        inr (c, first, rw e r.0, rw e r.1, rw e r.2, rw e r.3)
  ]
