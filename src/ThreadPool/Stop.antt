-- ===== src/ThreadPool/Stop.antt =====
-- When the destructor comes to an end.
use cpp_socket_programming.Prelude.{
  ℕ, zero, suc, ◌<◌, ◌≤◌, ◌≡◌, refl, ap, subst, ◌∙◌, ◌≢◌, ◌⊎◌, inl, inr, List, [], ◌∷◌, arith,
}
use cpp_socket_programming.ThreadPool.{
  Task, execute, stop, Worker, waiting, running, stopped, Phase, alive, pushing, joining, destroyed,
  Pool, init, put, enqueue, Step, submit, spawn, take, finish, quit, destroy, push_stop, join,
  leave, Reach, here, next, pool_size,
}

-- The destructor waits for worker 0, and the only request to stop went to worker 1.
abbrev deadlocked : Pool
deadlocked = record init { workers = put 1 stopped (λ _. waiting); phase = joining 0 }

deadlocked_stuck : {n : ℕ} {u : Pool} → ¬ Step n deadlocked u
deadlocked_stuck (submit x a e) = cc
deadlocked_stuck (spawn i x y lt w e) = ground arith
deadlocked_stuck (take i x rest lt w q e) = cc
deadlocked_stuck (finish i x lt w e) = ground arith
deadlocked_stuck (quit i rest lt w q e) = cc
deadlocked_stuck (destroy a e) = cc
deadlocked_stuck (push_stop i lt a e) = cc
deadlocked_stuck (join i a w e) = ground arith
deadlocked_stuck (leave a e) = cc

-- With two workers or more the destructor can wait for ever: it pushes one request to stop and joins
-- worker 0, another worker takes the request, and no thread has a step left.
pub destructor_deadlock :
    (n : ℕ)
    → 1 < n
    → (t : Pool) × Reach n init t × (t.phase ≡ joining 0) × ((u : Pool) → ¬ Step n t u)
destructor_deadlock n h = (
  deadlocked,
  next (next (next here (destroy refl refl)) (push_stop 0 (omega arith) refl refl))
      (quit 1 [] h refl refl refl),
  refl,
  λ u. deadlocked_stuck,
)

-- A request to stop is in the queue.
abbrev HasStop : List Task → Type 0
HasStop [] = ⊥
HasStop (execute x ∷ q) = HasStop q
HasStop (stop ∷ q) = Unit {0}

HasStop-execute : (x : ℕ) (q : List Task) → HasStop q → HasStop (enqueue (execute x) q)
HasStop-execute x [] h = absurd h
HasStop-execute x (execute y ∷ q) h = HasStop-execute x q h
HasStop-execute x (stop ∷ q) h = tt

HasStop-enqueue : (q : List Task) → HasStop (enqueue stop q)
HasStop-enqueue [] = tt
HasStop-enqueue (execute x ∷ q) = HasStop-enqueue q
HasStop-enqueue (stop ∷ q) = tt

record OneInv (s : Pool) : Type 0 where
  push_round : (i : ℕ) → s.phase ≡ pushing i → i ≤ 1
  join_round : (i : ℕ) → s.phase ≡ joining i → i ≡ 0
  asked : (i : ℕ) → s.phase ≡ joining i → (s.workers 0 ≡ stopped) ⊎ HasStop s.queue

step-OneInv : {s t : Pool} → OneInv s → Step 1 s t → OneInv t
step-OneInv {s} v (submit x a e) =
    rw e (record { push_round = v.push_round; join_round = v.join_round; asked = λ i p. cc })
step-OneInv {s} v (spawn i x y lt w e) = rw e (record {
  push_round = v.push_round;
  join_round = v.join_round;
  asked = λ j p. elim (v.asked j p) [
    | inl done ↦ inl done
    | inr has ↦ inr (HasStop-execute x s.queue has)
  ];
})
step-OneInv {s} v (take i x rest lt w q e) = rw e (record {
  push_round = v.push_round;
  join_round = v.join_round;
  asked = λ j p. elim (v.asked j p) [
    | inl done ↦ absurd (ground arith)
    | inr has ↦ inr (subst HasStop q has)
  ];
})
step-OneInv {s} v (finish i x lt w e) = rw e (record {
  push_round = v.push_round;
  join_round = v.join_round;
  asked = λ j p. elim (v.asked j p) [ inl done ↦ inl (ground arith) | inr has ↦ inr has ];
})
step-OneInv {s} v (quit i rest lt w q e) = rw e (record {
  push_round = v.push_round;
  join_round = v.join_round;
  asked = λ j p. inl (ground arith);
})
step-OneInv {s} v (destroy a e) =
    rw e (record { push_round = λ i p. ground arith; join_round = λ i p. cc; asked = λ i p. cc })
step-OneInv {s} v (push_stop i lt a e) = rw e (record {
  push_round = λ j p. cc;
  join_round = λ j p. ground arith;
  asked = λ j p. inr (HasStop-enqueue s.queue);
})
step-OneInv {s} v (join i a w e) = rw e (record {
  push_round = λ j p. ground (arith, v.join_round i a);
  join_round = λ j p. cc;
  asked = λ j p. cc;
})
step-OneInv {s} v (leave a e) =
    rw e (record { push_round = λ j p. cc; join_round = λ j p. cc; asked = λ j p. cc })

Reach-OneInv : {t : Pool} → Reach 1 init t → OneInv t
Reach-OneInv here = record { push_round = λ i p. cc; join_round = λ i p. cc; asked = λ i p. cc }
Reach-OneInv (next r st) = step-OneInv (Reach-OneInv r) st

-- The worker of a pool that has been asked to stop has a step, or has stopped.
waiting_worker :
    (s : Pool) (q : List Task)
    → s.queue ≡ q
    → s.workers 0 ≡ waiting
    → HasStop q
    → (u : Pool) × Step 1 s u
waiting_worker s [] e w has = absurd has
waiting_worker s (execute x ∷ rest) e w has = (_, take 0 x rest (omega arith) w e refl)
waiting_worker s (stop ∷ rest) e w has = (_, quit 0 rest (omega arith) w e refl)

joining_step :
    (s : Pool) (w : Worker)
    → s.workers 0 ≡ w
    → s.phase ≡ joining 0
    → (s.workers 0 ≡ stopped) ⊎ HasStop s.queue
    → (u : Pool) × Step 1 s u
joining_step s waiting e p (inl done) = cc
joining_step s waiting e p (inr has) = waiting_worker s s.queue refl e has
joining_step s (running x) e p asked = (_, finish 0 x (omega arith) e refl)
joining_step s stopped e p asked = (_, join 0 p e refl)

pushing_step : (s : Pool) (i : ℕ) → s.phase ≡ pushing i → i ≤ 1 → (u : Pool) × Step 1 s u
pushing_step s zero p h = (_, push_stop 0 (omega arith) p refl)
pushing_step s (suc zero) p h = (_, leave p refl)
pushing_step s (suc (suc i)) p h = absurd (omega arith)

phase_step :
    {s : Pool} (v : OneInv s) (p : Phase)
    → s.phase ≡ p
    → p ≢ alive
    → p ≢ destroyed
    → (u : Pool) × Step 1 s u
phase_step v alive e a d = absurd (a refl)
phase_step {s} v (pushing i) e a d = pushing_step s i e (v.push_round i e)
phase_step {s} v (joining i) e a d =
    joining_step s (s.workers 0) refl (e ∙ ap joining (v.join_round i e)) (v.asked i e)
phase_step v destroyed e a d = absurd (d refl)

-- With one worker there is no deadlock: from the start of the destructor until it has returned,
-- some thread has a step.
single_worker_progress :
    {t : Pool} → Reach 1 init t → t.phase ≢ alive → t.phase ≢ destroyed → (u : Pool) × Step 1 t u
single_worker_progress {t} r = phase_step (Reach-OneInv r) t.phase refl

no_worker_start : {n : ℕ} {t : Pool} → n ≡ 0 → Reach n init t → t.started ≡ []
no_worker_start z here = refl
no_worker_start z (next r (submit x a e)) = rw e (no_worker_start z r)
no_worker_start z (next r (spawn i x y lt w e)) = absurd (omega arith)
no_worker_start z (next r (take i x rest lt w q e)) = absurd (omega arith)
no_worker_start z (next r (finish i x lt w e)) = absurd (omega arith)
no_worker_start z (next r (quit i rest lt w q e)) = absurd (omega arith)
no_worker_start z (next r (destroy a e)) = rw e (no_worker_start z r)
no_worker_start z (next r (push_stop i lt a e)) = absurd (omega arith)
no_worker_start z (next r (join i a w e)) = rw e (no_worker_start z r)
no_worker_start z (next r (leave a e)) = rw e (no_worker_start z r)

-- On a machine with one hardware thread the singleton pool has no worker, and no task is ever started.
pub single_core_idle : {t : Pool} → Reach (pool_size 1) init t → t.started ≡ []
unfolding pool_size
single_core_idle r = no_worker_start refl r
