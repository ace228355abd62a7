-- ===== src/ClientSocket/Held.antt =====
-- No descriptor is leaked.
use cpp_socket_programming.Text.{Text, c_string}
use cpp_socket_programming.Prelude.{
  ℕ, ◌+◌, ◌<◌, ◌≡◌, refl, subst, sym, ◌∙◌, ◌⊎◌, inl, inr, Bool, true, false, Bool-cases, ◌||◌, List,
  [], ◌∷◌, Option, none, some, arith, ◌==◌, ltb, if◌then◌else◌, length, get_or, count, erase,
  contains, count-erase, not-contains-count,
}
use cpp_socket_programming.ClientSocket.{
  How, returns, throws, undefined, State, Answers, host_entry, threw, is_alpha, resolve, connect,
  close, constructed, construct_with, construct, create_and_connect, reconnect, and_then, run,
  destroy,
}

-- What `socket` gives is not open.
pub record IsFresh (socket : List ℕ → Option ℕ) : Type 0 where
  pub fresh : (table : List ℕ) (fd : ℕ) → socket table ≡ some fd → contains fd table ≡ false

abbrev pub held : ℕ → Option ℕ → ℕ
held x none = 0
held x (some fd) = if fd == x then 1 else 0

-- The table is that of the rest of the process, and the descriptor of the object, which is no other's.
pub record IsHeld (others : List ℕ) (s : State) : Type 0 where
  pub all : (x : ℕ) → count x s.table ≡ count x others + held x s.descriptor
  pub alone : (fd : ℕ) → s.descriptor ≡ some fd → count fd others ≡ 0

-- The host is a name, or its entry is found.
abbrev pub IsResolved : Text → Answers → Type 0
IsResolved host a = (is_alpha (get_or host 0 0) || a.found) ≡ true

abbrev pub AllResolved : Text → List Answers → Type 0
AllResolved host [] = Unit {0}
AllResolved host (a ∷ answers) = IsResolved host a × AllResolved host answers

resolve-resolved :
    (host : Text) (found : Bool)
    → (is_alpha (get_or host 0 0) || found) ≡ true
    → (resolve host found ≡ host_entry) ⊎ (resolve host found ≡ threw)
unfolding resolve
resolve-resolved host true h = inl refl
resolve-resolved host false h = inr (ground arith)

connect-resolved :
    (host : Text) (a : Answers)
    → IsResolved host a
    → (connect host a ≡ returns) ⊎ (connect host a ≡ throws)
unfolding connect
connect-resolved host a h = elim (resolve-resolved host a.found h) [
  | inr e ↦ inr (rw e refl)
  | inl e ↦ elim (Bool-cases a.connects) [
    | inl on ↦ inl (rw (e, on) refl)
    | inr off ↦ inr (rw (e, off) refl)
  ]
]

pub close-count :
    (others table : List ℕ) (d : Option ℕ)
    → ((x : ℕ) → count x table ≡ count x others + held x d)
    → (x : ℕ) → count x (close d table) ≡ count x others
close-count others table none h x = omega (arith, h x)
close-count others table (some fd) h x =
    ground (arith, h x, h fd, count-erase x fd table (ground (arith, h fd)))

pub opened-count :
    (others table : List ℕ) (fd x : ℕ)
    → count x table ≡ count x others
    → count x (fd ∷ table) ≡ count x others + held x (some fd)
unfolding count
opened-count others table fd x e = omega (arith, e)

pub count-erase_absent :
    (c : ℕ) (xs : List ℕ) (x : ℕ) → count c xs ≡ 0 → count x (erase c xs) ≡ count x xs
unfolding count erase
count-erase_absent c [] x h = refl
count-erase_absent c (y ∷ xs) x h = ground (arith, count-erase_absent c xs x)

module _ (socket : List ℕ → Option ℕ) (unused : IsFresh socket) (host : Text)
    (others : List ℕ) where
  create_and_connect-IsHeld :
      (a : Answers) (table : List ℕ) (o : Option ℕ)
      → socket table ≡ o
      → ((x : ℕ) → count x table ≡ count x others)
      → IsHeld others (create_and_connect socket host a table o).1
  unfolding create_and_connect
  create_and_connect-IsHeld a table none e h = record {
    all = λ x. omega (arith, h x);
    alone = λ fd e'. absurd cc;
  }
  create_and_connect-IsHeld a table (some fd) e h = record {
    all = λ x. opened-count others table fd x (h x);
    alone = λ x e'.
        let same : fd ≡ x = cc in
        subst (λ (y : ℕ). count y others ≡ 0) same
          (sym (h fd) ∙ not-contains-count fd table (unused.fresh table fd e));
  }

  create_and_connect-ends :
      (a : Answers) (table : List ℕ) (o : Option ℕ)
      → IsResolved host a
      → ((create_and_connect socket host a table o).0 ≡ returns)
        ⊎ ((create_and_connect socket host a table o).0 ≡ throws)
  unfolding create_and_connect
  create_and_connect-ends a table none h = inr refl
  create_and_connect-ends a table (some fd) h = connect-resolved host a h

  reconnect-IsHeld :
      (a : Answers) (s : State) → IsHeld others s → IsHeld others (reconnect socket host a s).1
  unfolding reconnect
  reconnect-IsHeld a s v =
      let table = close s.descriptor s.table in
      create_and_connect-IsHeld a table (socket table) refl
        (close-count others s.table s.descriptor v.all)

  and_then-ended :
      (r : How × State) (f : State → Option State)
      → (r.0 ≡ returns) ⊎ (r.0 ≡ throws)
      → and_then socket r f ≡ f r.1
  and_then-ended (returns, s) f h = refl
  and_then-ended (throws, s) f h = refl
  and_then-ended (undefined, s) f (inl e) = cc
  and_then-ended (undefined, s) f (inr e) = cc

  run-IsHeld :
      (answers : List Answers) (s : State)
      → AllResolved host answers
      → IsHeld others s
      → (s' : State) × (run socket host answers s ≡ some s') × IsHeld others s'
  unfolding run reconnect
  run-IsHeld [] s h v = (s, refl, v)
  run-IsHeld (a ∷ answers) s h v =
      let table = close s.descriptor s.table in
      let next = reconnect socket host a s in
      let (s', e, v') = run-IsHeld answers next.1 h.1 (reconnect-IsHeld a s v) in
      (
        s',
        and_then-ended next (run socket host answers)
              (create_and_connect-ends a table (socket table) h.0)
            ∙ e,
        v',
      )

  -- Closing twice, with nothing in between.
  destroy-count :
      (s : State) → IsHeld others s → (x : ℕ) → count x (destroy (λ t. t) s).table ≡ count x others
  unfolding destroy
  destroy-count s v x = twice s.descriptor refl x
    where
      once : (y : ℕ) → count y (close s.descriptor s.table) ≡ count y others
      once = close-count others s.table s.descriptor v.all

      twice :
          (d : Option ℕ)
          → s.descriptor ≡ d
          → (y : ℕ) → count y (close d (close s.descriptor s.table)) ≡ count y others
      twice none e y = once y
      twice (some fd) e y =
          count-erase_absent fd (close s.descriptor s.table) y (once fd ∙ v.alone fd e) ∙ once y

module _ (socket : List ℕ → Option ℕ) (unused : IsFresh socket) (name : Text) (table : List ℕ) where
  -- The constructor has thrown, and has left the table as it was; or there is an object.
  abbrev pub IsMade : How × State → Type 0
  IsMade r =
      ((r.0 ≡ throws) × ((x : ℕ) → count x r.1.table ≡ count x table))
      ⊎ ((r.0 ≡ returns) × IsHeld table r.1)

  construct_with-IsMade :
      (fd : ℕ) (how : How)
      → socket table ≡ some fd
      → (how ≡ returns) ⊎ (how ≡ throws)
      → IsMade (constructed fd table how)
  unfolding count erase
  construct_with-IsMade fd returns e h = inr (
    refl,
    record {
      all = λ x. opened-count table table fd x refl;
      alone = λ x e'.
          let same : fd ≡ x = cc in
          subst (λ (y : ℕ). count y table ≡ 0) same
            (not-contains-count fd table (unused.fresh table fd e));
    },
  )
  construct_with-IsMade fd throws e h =
      inl (refl, close-count table (fd ∷ table) (some fd) (λ x. opened-count table table fd x refl))
  construct_with-IsMade fd undefined e (inl h) = absurd cc
  construct_with-IsMade fd undefined e (inr h) = absurd cc

  pub construct-IsMade :
      (a : Answers)
      → length (c_string name) < 255
      → IsResolved (c_string name) a
      → IsMade (construct socket name a table)
  unfolding construct construct_with
  construct-IsMade a fits h = go (socket table) refl
    where
      go : (o : Option ℕ) → socket table ≡ o → IsMade (construct_with socket name a table o)
      go none e = inl (refl, λ x. refl)
      go (some fd) e =
          let same : ltb (length (c_string name)) 255 ≡ true = ground arith in
          rw same (
            construct_with-IsMade fd (connect (c_string name) a) e
              (connect-resolved (c_string name) a h))

  -- A server's name of less than 255 bytes, where `socket` gives descriptors that are not open, and
  -- each host that is not a name has an entry: the constructor throws and leaves the table of
  -- descriptors as it was; or it makes an object, and after any number of calls of `Reconnect`,
  -- whether they return or throw, the open descriptors are those of before and the object's own, if
  -- it has one, and none of them when the object has been destroyed with nothing in between.
  pub construct-IsHeld :
      (a : Answers) (answers : List Answers)
      → length (c_string name) < 255
      → IsResolved (c_string name) a
      → AllResolved (c_string name) answers
      → let made = construct socket name a table in
        ((made.0 ≡ throws) × ((x : ℕ) → count x made.1.table ≡ count x table))
        ⊎ ((s : State) × (made.0 ≡ returns)
            × (run socket (c_string name) answers made.1 ≡ some s)
            × IsHeld table s
            × ((x : ℕ) → count x (destroy (λ t. t) s).table ≡ count x table))
  construct-IsHeld a answers fits h hs = elim (construct-IsMade a fits h) [
    | inl threw_ ↦ inl threw_
    | inr (made, v) ↦
        let (s, e, v') =
          run-IsHeld socket unused (c_string name) table answers (construct socket name a table).1
            hs v in
        inr (s, made, e, v', destroy-count socket unused (c_string name) table s v')
  ]
