-- ===== src/Scheduler/Rounds.antt =====
-- Each task is executed once, in the first round that finds it due.
use cpp_socket_programming.Prelude.{
  ℕ, ◌+◌, ◌≡◌, refl, true, false, List, [], ◌∷◌, ◌++◌, map, Option, none, some, arith, ◌==◌, ◌&&◌,
  leb, if◌then◌else◌, Bool-cases, inl, inr,
}
use cpp_socket_programming.Scheduler.{ITask, sweep, start}

-- The first reading of the clock that reaches a time.
abbrev pub first_due : ℕ → List ℕ → Option ℕ
first_due time [] = none
first_due time (now ∷ later) = if leb time now then some now else first_due time later

abbrev pub All {ℓ} : {A : Type ℓ} → (A → Type 0) → List A → Type 0
All P [] = Unit {0}
All P (x ∷ xs) = P x × All P xs

-- How often a task stands in a list.
abbrev pub occurs : ITask → List ITask → ℕ
occurs x [] = 0
occurs x (t ∷ ts) = (if x.name == t.name && x.time == t.time then 1 else 0) + occurs x ts

abbrev pub tasks_of : List (ℕ × ITask) → List ITask
tasks_of [] = []
tasks_of ((now, t) ∷ log) = t ∷ tasks_of log

occurs-sweep :
    (x : ITask) (now : ℕ) (ts : List ITask)
    → occurs x (sweep now ts).0 + occurs x (sweep now ts).1 ≡ occurs x ts
unfolding sweep
occurs-sweep x now [] = refl
occurs-sweep x now (t ∷ ts) = elim (Bool-cases (leb t.time now)) [
  | inl e ↦ rw e (omega (arith, occurs-sweep x now ts))
  | inr e ↦ rw e (omega (arith, occurs-sweep x now ts))
]

occurs-round :
    (x : ITask) (now : ℕ) (ts : List ITask) (log : List (ℕ × ITask))
    → occurs x (tasks_of (map (λ t. (now, t)) ts ++ log)) ≡ occurs x ts + occurs x (tasks_of log)
occurs-round x now [] log = omega arith
occurs-round x now (t ∷ ts) log = omega (arith, occurs-round x now ts log)

occurs-start :
    (x : ITask) (nows : List ℕ) (ts : List ITask)
    → occurs x (tasks_of (start nows ts).0) + occurs x (start nows ts).1 ≡ occurs x ts
unfolding start
occurs-start x [] ts = omega arith
occurs-start x (now ∷ later) ts = omega (
  arith,
  occurs-round x now (sweep now ts).0 (start later (sweep now ts).1).0,
  occurs-start x later (sweep now ts).1,
  occurs-sweep x now ts,
)

All-sweep :
    (P : ITask → Type 0) (now : ℕ) (ts : List ITask)
    → All P ts
    → All (λ t. P t × (leb t.time now ≡ true)) (sweep now ts).0
      × All (λ t. P t × (leb t.time now ≡ false)) (sweep now ts).1
unfolding sweep
All-sweep P now [] h = (tt, tt)
All-sweep P now (t ∷ ts) h =
    let (executed, left) = All-sweep P now ts h.1 in
    elim (Bool-cases (leb t.time now)) [
      | inl e ↦ rw e (((h.0, e), executed), left)
      | inr e ↦ rw e (executed, ((h.0, e), left))
    ]

-- A task with a property is executed in the first round that finds it due, and is left if none does.
abbrev IsDone : (ITask → Type 0) → List ℕ → ℕ × ITask → Type 0
IsDone P nows entry = P entry.1 × (first_due entry.1.time nows ≡ some entry.0)

abbrev IsLeft : (ITask → Type 0) → List ℕ → ITask → Type 0
IsLeft P nows t = P t × (first_due t.time nows ≡ none)

All-round :
    (P : ITask → Type 0) (now : ℕ) (later : List ℕ) (ts : List ITask) (log : List (ℕ × ITask))
    → All (λ t. P t × (leb t.time now ≡ true)) ts
    → All (IsDone P (now ∷ later)) log
    → All (IsDone P (now ∷ later)) (map (λ t. (now, t)) ts ++ log)
All-round P now later [] log h k = k
All-round P now later (t ∷ ts) log h k = ((h.0.0, rw (h.0.1)), All-round P now later ts log h.1 k)

not_yet-IsDone :
    (P : ITask → Type 0) (now : ℕ) (later : List ℕ) (log : List (ℕ × ITask))
    → All (IsDone (λ t. P t × (leb t.time now ≡ false)) later) log
    → All (IsDone P (now ∷ later)) log
not_yet-IsDone P now later [] h = tt
not_yet-IsDone P now later (entry ∷ log) h =
    ((h.0.0.0, rw (h.0.0.1) (h.0.1)), not_yet-IsDone P now later log h.1)

not_yet-IsLeft :
    (P : ITask → Type 0) (now : ℕ) (later : List ℕ) (ts : List ITask)
    → All (IsLeft (λ t. P t × (leb t.time now ≡ false)) later) ts
    → All (IsLeft P (now ∷ later)) ts
not_yet-IsLeft P now later [] h = tt
not_yet-IsLeft P now later (t ∷ ts) h =
    ((h.0.0.0, rw (h.0.0.1) (h.0.1)), not_yet-IsLeft P now later ts h.1)

none-IsLeft : (P : ITask → Type 0) (ts : List ITask) → All P ts → All (IsLeft P []) ts
none-IsLeft P [] h = tt
none-IsLeft P (t ∷ ts) h = ((h.0, refl), none-IsLeft P ts h.1)

All-start :
    (P : ITask → Type 0) (nows : List ℕ) (ts : List ITask)
    → All P ts
    → All (IsDone P nows) (start nows ts).0 × All (IsLeft P nows) (start nows ts).1
unfolding start
All-start P [] ts h = (tt, none-IsLeft P ts h)
All-start P (now ∷ later) ts h =
    let (due, rest) = All-sweep P now ts h in
    let (log, left) = All-start (λ t. P t × (leb t.time now ≡ false)) later (sweep now ts).1 rest in
    (
      All-round P now later (sweep now ts).0 (start later (sweep now ts).1).0 due
          (not_yet-IsDone P now later (start later (sweep now ts).1).0 log),
      not_yet-IsLeft P now later (start later (sweep now ts).1).1 left,
    )

All-map :
    {A : Type 0} (P Q : A → Type 0) (xs : List A) → ((x : A) → P x → Q x) → All P xs → All Q xs
All-map P Q [] f h = tt
All-map P Q (x ∷ xs) f h = (f x h.0, All-map P Q xs f h.1)

All-unit : (ts : List ITask) → All (λ _. Unit {0}) ts
All-unit [] = tt
All-unit (t ∷ ts) = (tt, All-unit ts)

-- Every task is executed as often as it was added, in the first round whose reading of the clock
-- reaches its time; exactly the tasks that no reading reaches are left.
pub start_lem :
    (nows : List ℕ) (ts : List ITask)
    → ((x : ITask)
        → occurs x (tasks_of (start nows ts).0) + occurs x (start nows ts).1 ≡ occurs x ts)
      × All (λ entry. first_due entry.1.time nows ≡ some entry.0) (start nows ts).0
      × All (λ t. first_due t.time nows ≡ none) (start nows ts).1
start_lem nows ts =
    let (log, left) = All-start (λ _. Unit {0}) nows ts (All-unit ts) in
    (
      λ x. occurs-start x nows ts,
      All-map _ _ (start nows ts).0 (λ entry h. h.1) log,
      All-map _ _ (start nows ts).1 (λ t h. h.1) left,
    )
