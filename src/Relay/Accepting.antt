-- ===== src/Relay/Accepting.antt =====
-- The threads that accept clients: `main` of passthrough-proxy/Proxy.cpp, which hands the socket to the
-- thread of its client, and `StartListeningThread` of connection-pool/src/proxy.h, which hands over the
-- address of a variable of its loop. That variable is at the same address in each round.
use cpp_socket_programming.Passthrough.{Returned, socket, null, threw}
use cpp_socket_programming.Prelude.{
  ℕ, zero, suc, ◌+◌, ◌≡◌, refl, ap, ◌∙◌, Bool, true, false, List, [], ◌∷◌, ◌++◌, Option, none, some,
  arith, count, count-append,
}

-- The threads that have not started, the sockets that were accepted, and those that a thread serves.
pub record Threads : Type 0 where
  pub waiting : List ℕ
  pub accepted : List ℕ
  pub served : List ℕ

-- A round of the loop, and the start of one of the threads that wait.
pub data Event : Type 0 where
  accepts : Returned → Event
  starts : ℕ → Event

abbrev pub init : Threads
init = record { waiting = []; accepted = []; served = [] }

-- A round of `main`; `none` is an exception that nothing catches, or a null pointer that is used.
unfoldable pub accept_round : Returned → Threads → Option Threads
accept_round (socket x) s =
    some (record s { waiting = s.waiting ++ (x ∷ []); accepted = s.accepted ++ (x ∷ []) })
accept_round null s = none
accept_round threw s = none

abbrev pub behind : ℕ → Option (ℕ × List ℕ) → Option (ℕ × List ℕ)
behind x none = none
behind x (some (y, ys)) = some (y, x ∷ ys)

-- The element at an index, with those around it.
abbrev pub pick : ℕ → List ℕ → Option (ℕ × List ℕ)
pick i [] = none
pick zero (x ∷ xs) = some (x, xs)
pick (suc i) (x ∷ xs) = behind x (pick i xs)

abbrev pub started : Option (ℕ × List ℕ) → Threads → Threads
started none s = s
started (some p) s = record s { waiting = p.1; served = s.served ++ (p.0 ∷ []) }

unfoldable pub start_thread : ℕ → Threads → Threads
start_thread i s = started (pick i s.waiting) s

unfoldable pub step : Event → Threads → Option Threads
unfolding accept_round start_thread
step (accepts a) s = accept_round a s
step (starts i) s = some (start_thread i s)

abbrev pub and_then {ℓ} : {A : Type ℓ} → Option A → (A → Option A) → Option A
and_then none f = none
and_then (some s) f = f s

unfoldable pub run : List Event → Threads → Option Threads
unfolding step
run [] s = some s
run (e ∷ events) s = and_then (step e s) (run events)

-- The variable of the loop, which each of the threads that wait reads when it starts.
pub record Shared : Type 0 where
  pub context : Option ℕ
  pub threads : Threads

-- A round of `StartListeningThread`.
unfoldable pub listen_round : Returned → Shared → Option Shared
unfolding accept_round
listen_round (socket x) s = elim (accept_round (socket x) s.threads) [
  | none ↦ none
  | some t ↦ some (record { context = some x; threads = t })
]
listen_round null s = none
listen_round threw s = none

abbrev pub read_context : Option ℕ → Option (ℕ × List ℕ) → Option (ℕ × List ℕ)
read_context none p = none
read_context (some x) none = none
read_context (some x) (some p) = some (x, p.1)

-- `RunProxyClientThreadHelper`.
unfoldable pub start_helper : ℕ → Shared → Shared
start_helper i s = record s {
  threads = started (read_context s.context (pick i s.threads.waiting)) s.threads;
}

unfoldable pub step_shared : Event → Shared → Option Shared
unfolding listen_round start_helper
step_shared (accepts a) s = listen_round a s
step_shared (starts i) s = some (start_helper i s)

unfoldable pub run_shared : List Event → Shared → Option Shared
unfolding step_shared
run_shared [] s = some s
run_shared (e ∷ events) s = and_then (step_shared e s) (run_shared events)

abbrev pub AllSockets : List Event → Type 0
AllSockets [] = Unit
AllSockets (accepts (socket x) ∷ events) = AllSockets events
AllSockets (accepts null ∷ events) = ⊥
AllSockets (accepts threw ∷ events) = ⊥
AllSockets (starts i ∷ events) = AllSockets events

-- Each client is served by one thread, or waits for one.
abbrev pub IsServedOnce : Threads → Type 0
IsServedOnce s = (x : ℕ) → count x s.accepted ≡ count x s.served + count x s.waiting

behind-count :
    (x y : ℕ) (xs : List ℕ) (o : Option (ℕ × List ℕ)) (p : ℕ × List ℕ)
    → ((q : ℕ × List ℕ) → o ≡ some q → count x xs ≡ count x (q.0 ∷ q.1))
    → behind y o ≡ some p
    → count x (y ∷ xs) ≡ count x (p.0 ∷ p.1)
unfolding count
behind-count x y xs none p h e = absurd cc
behind-count x y xs (some (z, zs)) p h e =
    let both : (z, y ∷ zs) ≡ p = cc in
    omega (arith, h (z, zs) refl) ∙ ap (λ (q : ℕ × List ℕ). count x (q.0 ∷ q.1)) both

pick-count :
    (x i : ℕ) (xs : List ℕ) (p : ℕ × List ℕ) → pick i xs ≡ some p → count x xs ≡ count x (p.0 ∷ p.1)
unfolding count
pick-count x i [] p e = absurd cc
pick-count x zero (y ∷ xs) p e =
    let same : (y, xs) ≡ p = cc in ap (λ (q : ℕ × List ℕ). count x (q.0 ∷ q.1)) same
pick-count x (suc i) (y ∷ xs) p e =
    behind-count x y xs (pick i xs) p (λ q e'. pick-count x i xs q e') e

started-IsServedOnce :
    (i : ℕ) (o : Option (ℕ × List ℕ)) (s : Threads)
    → pick i s.waiting ≡ o
    → IsServedOnce s
    → IsServedOnce (started o s)
unfolding count
started-IsServedOnce i none s e v = v
started-IsServedOnce i (some p) s e v =
    λ x. omega (arith, v x, pick-count x i s.waiting p e, count-append x s.served (p.0 ∷ []))

-- Where each accept gives a socket, the loop of `main` goes on, and each client is served by one thread
-- or waits for one, in whatever order the threads start.
run-IsServedOnce :
    (events : List Event) (s : Threads)
    → AllSockets events
    → IsServedOnce s
    → (t : Threads) × (run events s ≡ some t) × IsServedOnce t
unfolding run step accept_round start_thread
run-IsServedOnce [] s h v = (s, refl, v)
run-IsServedOnce (accepts (socket x) ∷ events) s h v =
    run-IsServedOnce events
      (record s { waiting = s.waiting ++ (x ∷ []); accepted = s.accepted ++ (x ∷ []) }) h
      (λ y.
        omega (arith, v y, count-append y s.waiting (x ∷ []), count-append y s.accepted (x ∷ [])))
run-IsServedOnce (accepts null ∷ events) s h v = absurd h
run-IsServedOnce (accepts threw ∷ events) s h v = absurd h
run-IsServedOnce (starts i ∷ events) s h v =
    run-IsServedOnce events (start_thread i s) h
      (started-IsServedOnce i (pick i s.waiting) s refl v)

-- Each accept gives a socket, and where a thread waits it starts before the next accept.
abbrev pub AllInTime : Bool → List Event → Type 0
AllInTime busy [] = Unit {0}
AllInTime false (accepts (socket x) ∷ events) = AllInTime true events
AllInTime true (accepts (socket x) ∷ events) = ⊥
AllInTime busy (accepts null ∷ events) = ⊥
AllInTime busy (accepts threw ∷ events) = ⊥
AllInTime false (starts i ∷ events) = AllInTime false events
AllInTime true (starts i ∷ events) = (i ≡ 0) × AllInTime false events

-- No thread waits, or one, for the client in the variable.
abbrev pub IsCurrent : Bool → Shared → Type 0
IsCurrent false s = s.threads.waiting ≡ []
IsCurrent true s = (x : ℕ) × (s.context ≡ some x) × (s.threads.waiting ≡ x ∷ [])

start-idle :
    (i : ℕ) (s : Shared)
    → s.threads.waiting ≡ []
    → (start_thread i s.threads ≡ s.threads) × (start_helper i s ≡ s)
unfolding start_thread start_helper
start-idle i s e = (
  ap (λ l. started (pick i l) s.threads) e,
  ap (λ l. record s { threads = started (read_context s.context (pick i l)) s.threads }) e
      ∙ ap (λ (o : Option (ℕ × List ℕ)). record s { threads = started o s.threads })
          (nothing s.context),
)
  where
    nothing : (c : Option ℕ) → read_context c none ≡ none
    nothing none = refl
    nothing (some x) = refl

-- The thread that has started.
abbrev served_next : ℕ → Threads → Threads
served_next x s = record s { waiting = []; served = s.served ++ (x ∷ []) }

start-busy :
    (x : ℕ) (s : Shared)
    → s.context ≡ some x
    → s.threads.waiting ≡ x ∷ []
    → (start_thread 0 s.threads ≡ served_next x s.threads)
      × (start_helper 0 s ≡ record s { threads = served_next x s.threads })
unfolding start_thread start_helper
start-busy x s c e = (
  ap (λ l. started (pick 0 l) s.threads) e,
  ap (λ l. record s { threads = started (read_context s.context (pick 0 l)) s.threads }) e
      ∙ ap
          (λ (o : Option ℕ). record s {
            threads = started (read_context o (some (x, []))) s.threads;
          })
          c,
)

-- The proxies agree as long as each thread starts before the next accept.
run_shared-run :
    (busy : Bool) (events : List Event) (s : Shared)
    → AllInTime busy events
    → IsCurrent busy s
    → (t : Shared) × (run_shared events s ≡ some t) × (run events s.threads ≡ some t.threads)
unfolding run run_shared step step_shared accept_round listen_round start_thread start_helper
run_shared-run busy [] s h v = (s, refl, refl)
run_shared-run false (accepts (socket x) ∷ events) s h v =
    run_shared-run true events
      (record {
        context = some x;
        threads = record s.threads {
          waiting = s.threads.waiting ++ (x ∷ []);
          accepted = s.threads.accepted ++ (x ∷ []);
        };
      })
      h (x, refl, ap (λ l. l ++ (x ∷ [])) v)
run_shared-run true (accepts (socket x) ∷ events) s h v = absurd h
run_shared-run false (accepts null ∷ events) s h v = absurd h
run_shared-run true (accepts null ∷ events) s h v = absurd h
run_shared-run false (accepts threw ∷ events) s h v = absurd h
run_shared-run true (accepts threw ∷ events) s h v = absurd h
run_shared-run false (starts i ∷ events) s h v =
    let (one, other) = start-idle i s v in
    let (t, a, b) = run_shared-run false events s h v in
    (t, ap (run_shared events) other ∙ a, ap (run events) one ∙ b)
run_shared-run true (starts i ∷ events) s h v =
    let (x, c, e) = v in
    let (one, other) = start-busy x s c e in
    let next : Shared = record s { threads = served_next x s.threads } in
    let (t, a, b) = run_shared-run false events next h.1 refl in
    (
      t,
      ap (λ j. run_shared events (start_helper j s)) h.0 ∙ ap (run_shared events) other ∙ a,
      ap (λ j. run events (start_thread j s.threads)) h.0 ∙ ap (run events) one ∙ b,
    )

-- Where each accept gives a socket: `main` of the passthrough proxy goes on, and each client that was
-- accepted is served by one thread, or waits for one, in whatever order the threads start. The loop of
-- the proxy over the pool, from the same start, ends in the same state as that of `main` where each
-- thread starts before the next accept.
pub run-run_shared :
    (events early : List Event)
    → AllSockets events
    → AllInTime false early
    → ((t : Threads) × (run events init ≡ some t) × IsServedOnce t)
      × ((u : Shared) × (run_shared early (record { context = none; threads = init }) ≡ some u)
          × (run early init ≡ some u.threads))
unfolding count
run-run_shared events early sockets time = (
  run-IsServedOnce events init sockets (λ x. omega arith),
  run_shared-run false early (record { context = none; threads = init }) time refl,
)
