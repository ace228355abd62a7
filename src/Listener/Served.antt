-- ===== src/Listener/Served.antt =====
-- Which clients are served.
use cpp_socket_programming.Prelude.{
  ℕ, zero, suc, ◌≡◌, refl, sym, ap, ◌∙◌, ◌≢◌, Bool, true, false, List, [], ◌∷◌, ◌++◌, some, arith,
  count, count-append,
}
use cpp_socket_programming.Listener.{
  State, socket, null, threw, listen_round, serve, start_task, client_thread_proc, Event, listens,
  starts, step, run,
}

-- Each accept gives a socket, and where a task waits it starts before the next accept.
abbrev pub AllInTime : Bool → List Event → Type 0
AllInTime busy [] = Unit {0}
AllInTime false (listens (socket x) ∷ events) = AllInTime true events
AllInTime true (listens (socket x) ∷ events) = ⊥
AllInTime busy (listens null ∷ events) = ⊥
AllInTime busy (listens threw ∷ events) = ⊥
AllInTime busy (starts ∷ events) = AllInTime false events

-- All that were accepted are served, in order, but for one whose task waits.
abbrev pub IsServed : Bool → State → Type 0
IsServed false s = (s.waiting ≡ 0) × (s.served ≡ s.accepted)
IsServed true s =
    (s.waiting ≡ 1) × ((x : ℕ) × (s.client_data ≡ some x) × (s.served ++ x ∷ [] ≡ s.accepted))

start_idle : (s : State) → s.waiting ≡ 0 → client_thread_proc s ≡ s
unfolding client_thread_proc
start_idle s e = ap (λ n. start_task n s) e

start_busy :
    (s : State) (n x : ℕ)
    → s.waiting ≡ suc n
    → s.client_data ≡ some x
    → client_thread_proc s ≡ record s { waiting = n; served = s.served ++ x ∷ [] }
unfolding client_thread_proc
start_busy s n x e e' = ap (λ m. start_task m s) e ∙ ap (λ c. serve c (record s { waiting = n })) e'

-- From a state where all that were accepted are served but for one that waits at most, as at the
-- start: as long as each accept gives a socket and each task starts before the next accept, the thread
-- goes on, and each client is served once, in the order of the accepts, but for one that waits.
pub run-IsServed :
    (busy : Bool) (events : List Event) (s : State)
    → AllInTime busy events
    → IsServed busy s
    → (busy' : Bool) × (s' : State) × (run events s ≡ some s') × IsServed busy' s'
unfolding run step listen_round client_thread_proc
run-IsServed busy [] s t v = (busy, s, refl, v)
run-IsServed false (listens (socket x) ∷ events) s t v =
    run-IsServed true events _ t (ap suc v.0, (x, refl, ap (λ l. l ++ x ∷ []) v.1))
run-IsServed true (listens (socket x) ∷ events) s t v = absurd t
run-IsServed false (listens null ∷ events) s t v = absurd t
run-IsServed true (listens null ∷ events) s t v = absurd t
run-IsServed false (listens threw ∷ events) s t v = absurd t
run-IsServed true (listens threw ∷ events) s t v = absurd t
run-IsServed false (starts ∷ events) s t v =
    let (busy', s', e, v') = run-IsServed false events s t v in
    (busy', s', ap (run events) (start_idle s v.0) ∙ e, v')
run-IsServed true (starts ∷ events) s t v =
    let (one, last_) = v in
    let (x, data_, same) = last_ in
    let next : State = record s { waiting = 0; served = s.served ++ x ∷ [] } in
    let (busy', s', e, v') = run-IsServed false events next t (refl, same) in
    (busy', s', ap (run events) (start_busy s 0 x one data_) ∙ e, v')

-- The socket is not accepted again.
abbrev pub NoAccept : ℕ → List Event → Type 0
NoAccept a [] = Unit {0}
NoAccept a (listens (socket x) ∷ events) = (x ≢ a) × NoAccept a events
NoAccept a (listens null ∷ events) = NoAccept a events
NoAccept a (listens threw ∷ events) = NoAccept a events
NoAccept a (starts ∷ events) = NoAccept a events

count-start :
    (a y n : ℕ) (s : State)
    → s.client_data ≡ some y
    → y ≢ a
    → (count a (start_task n s).served ≡ count a s.served) × ((start_task n s).client_data ≡ some y)
unfolding count
count-start a y zero s e h = (refl, e)
count-start a y (suc n) s e h =
    let next : State = record s { waiting = n } in
    let here_ : serve s.client_data next ≡ serve (some y) next = ap (λ c. serve c next) e in
    (
      ap (λ r. count a r.served) here_ ∙ count-append a s.served (y ∷ []) ∙ ground arith,
      ap (λ r. r.client_data) here_ ∙ e,
    )

run-count :
    (events : List Event) (a y : ℕ) (s s' : State)
    → NoAccept a events
    → s.client_data ≡ some y
    → y ≢ a
    → run events s ≡ some s'
    → count a s'.served ≡ count a s.served
unfolding run step listen_round client_thread_proc
run-count [] a y s s' others e h r = let same : s ≡ s' = cc in ap (λ z. count a z.served) (sym same)
run-count (listens (socket x) ∷ events) a y s s' others e h r =
    run-count events a x _ s' others.1 refl others.0 r
run-count (listens null ∷ events) a y s s' others e h r = cc
run-count (listens threw ∷ events) a y s s' others e h r = cc
run-count (starts ∷ events) a y s s' others e h r =
    let (same, data_) = count-start a y s.waiting s e h in
    run-count events a y (start_task s.waiting s) s' others data_ h r ∙ same

-- A client that is accepted before the task of the one before it has started takes its place: the
-- one before it is never served, whatever happens then, unless the same descriptor is accepted again.
run-lost :
    (a b : ℕ) (events : List Event) (s s' : State)
    → b ≢ a
    → NoAccept a events
    → run (listens (socket a) ∷ listens (socket b) ∷ events) s ≡ some s'
    → count a s'.served ≡ count a s.served
unfolding run step listen_round
run-lost a b events s s' h others r = run-count events a b _ s' others refl h r
