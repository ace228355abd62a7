-- ===== src/ThreadPool/Queue.antt =====
-- The queue of a thread pool: what is in it, and what stands behind what.
use cpp_socket_programming.Prelude.{ℕ, ◌≡◌, refl, sym, ap, ◌∙◌, List, [], ◌∷◌, ◌++◌, append_assoc}
use cpp_socket_programming.ThreadPool.{Task, execute, stop, enqueue}

-- The tasks of a queue that are to be executed.
abbrev pub tasks : List Task → List ℕ
tasks [] = []
tasks (execute x ∷ q) = x ∷ tasks q
tasks (stop ∷ q) = tasks q

abbrev pub NoStop : List Task → Type 0
NoStop [] = Unit {0}
NoStop (execute x ∷ q) = NoStop q
NoStop (stop ∷ q) = ⊥

-- The tasks in front of the first request to stop.
abbrev pub front : List Task → List ℕ
front [] = []
front (execute x ∷ q) = x ∷ front q
front (stop ∷ q) = []

abbrev pub IsPrefix : List ℕ → List ℕ → Type 0
IsPrefix xs ys = (more : List ℕ) × (ys ≡ xs ++ more)

pub tasks-execute : (x : ℕ) (q : List Task) → tasks (enqueue (execute x) q) ≡ tasks q ++ x ∷ []
tasks-execute x [] = refl
tasks-execute x (execute y ∷ q) = ap (λ l. y ∷ l) (tasks-execute x q)
tasks-execute x (stop ∷ q) = tasks-execute x q

pub tasks-stop : (q : List Task) → tasks (enqueue stop q) ≡ tasks q
tasks-stop [] = refl
tasks-stop (execute y ∷ q) = ap (λ l. y ∷ l) (tasks-stop q)
tasks-stop (stop ∷ q) = tasks-stop q

pub NoStop-execute : (x : ℕ) (q : List Task) → NoStop q → NoStop (enqueue (execute x) q)
NoStop-execute x [] h = tt
NoStop-execute x (execute y ∷ q) h = NoStop-execute x q h
NoStop-execute x (stop ∷ q) h = absurd h

pub front-NoStop : (q : List Task) → NoStop q → front q ≡ tasks q
front-NoStop [] h = refl
front-NoStop (execute x ∷ q) h = ap (λ l. x ∷ l) (front-NoStop q h)
front-NoStop (stop ∷ q) h = absurd h

pub front-execute : (x : ℕ) (q : List Task) → IsPrefix (front q) (front (enqueue (execute x) q))
front-execute x [] = (x ∷ [], refl)
front-execute x (execute y ∷ q) = let (more, e) = front-execute x q in (more, ap (λ l. y ∷ l) e)
front-execute x (stop ∷ q) = ([], refl)

pub front-stop : (q : List Task) → front (enqueue stop q) ≡ front q
front-stop [] = refl
front-stop (execute y ∷ q) = ap (λ l. y ∷ l) (front-stop q)
front-stop (stop ∷ q) = refl

-- A prefix stays one of a longer list.
pub prefix-longer : (xs ys zs : List ℕ) → IsPrefix xs ys → IsPrefix xs (ys ++ zs)
prefix-longer xs ys zs (more, e) = (more ++ zs, ap (λ l. l ++ zs) e ∙ append_assoc xs more zs)

pub prefix-behind :
    (xs before ys zs : List ℕ)
    → IsPrefix xs (before ++ ys)
    → IsPrefix ys zs
    → IsPrefix xs (before ++ zs)
prefix-behind xs before ys zs (more, e) (last, f) = (
  more ++ last,
  ap (λ l. before ++ l) f
      ∙ sym (append_assoc before ys last)
      ∙ ap (λ l. l ++ last) e
      ∙ append_assoc xs more last,
)
