-- ===== src/ThreadPool/Invariant.antt =====
-- What every interleaving of a thread pool keeps.
use native.Mathlib.Decide.{dec_lt}
use cpp_socket_programming.Prelude.{
  ℕ, suc, ◌<◌, ◌≡◌, refl, sym, ap, subst, ◌∙◌, ◌≢◌, List, [], ◌∷◌, ◌++◌, append_assoc, append-nil,
  arith,
}
use cpp_socket_programming.ThreadPool.Queue.{
  tasks, NoStop, front, IsPrefix, tasks-execute, tasks-stop, NoStop-execute, front-NoStop,
  front-execute, front-stop, prefix-longer, prefix-behind,
}
use cpp_socket_programming.ThreadPool.{
  Task, execute, stop, waiting, running, stopped, Phase, alive, pushing, joining, destroyed, Pool,
  init, put, enqueue, in_time, push, Step, submit, spawn, take, finish, quit, destroy, push_stop,
  join, leave, Reach, here, next,
}

-- The workers below this one have been joined.
abbrev pub joined : ℕ → Phase → ℕ
joined n alive = 0
joined n (pushing i) = i
joined n (joining i) = i
joined n destroyed = n

pub record Inv (n : ℕ) (s : Pool) : Type 0 where
  pub kept : s.started ++ tasks s.queue ≡ s.submitted
  pub in_front : IsPrefix s.early (s.started ++ front s.queue)
  pub drained : (i : ℕ) → s.workers i ≡ stopped → IsPrefix s.early s.started
  pub open_queue : s.phase ≡ alive → NoStop s.queue
  pub open_early : s.phase ≡ alive → s.early ≡ s.submitted
  pub open_workers : s.phase ≡ alive → (i : ℕ) → s.workers i ≢ stopped
  pub below : (i : ℕ) → i < joined n s.phase → s.workers i ≡ stopped

init-Inv : (n : ℕ) → Inv n init
init-Inv n = record {
  kept = refl;
  in_front = ([], refl);
  drained = λ i e. cc;
  open_queue = λ _. tt;
  open_early = λ _. refl;
  open_workers = λ _ i e. cc;
  below = λ i h. absurd (omega arith);
}

module _ {n : ℕ} {s : Pool} (v : Inv n s) (x : ℕ) where
  late_front : IsPrefix s.early (s.started ++ front (enqueue (execute x) s.queue))
  late_front =
      prefix-behind s.early s.started (front s.queue) (front (enqueue (execute x) s.queue))
        v.in_front (front-execute x s.queue)

  -- Before the destructor begins, all of the queue is in front.
  early_front :
      s.phase ≡ alive → s.started ++ front (enqueue (execute x) s.queue) ≡ (s.early ++ x ∷ []) ++ []
  early_front e =
      ap (λ l. s.started ++ l)
        (front-NoStop (enqueue (execute x) s.queue) (NoStop-execute x s.queue (v.open_queue e))
          ∙ tasks-execute x s.queue)
      ∙ sym (append_assoc s.started (tasks s.queue) (x ∷ []))
      ∙ ap (λ l. l ++ x ∷ []) (v.kept ∙ sym (v.open_early e))
      ∙ sym (append-nil (s.early ++ x ∷ []))

  pushed_front :
      (p : Phase)
      → s.phase ≡ p
      → IsPrefix (in_time p x s.early) (s.started ++ front (enqueue (execute x) s.queue))
  pushed_front alive e = ([], early_front e)
  pushed_front (pushing i) e = late_front
  pushed_front (joining i) e = late_front
  pushed_front destroyed e = late_front

  pushed_drained :
      (p : Phase)
      → s.phase ≡ p
      → (i : ℕ) → s.workers i ≡ stopped
      → IsPrefix (in_time p x s.early) s.started
  pushed_drained alive e i h = absurd (v.open_workers e i h)
  pushed_drained (pushing j) e i h = v.drained i h
  pushed_drained (joining j) e i h = v.drained i h
  pushed_drained destroyed e i h = v.drained i h

  pushed_early : (p : Phase) → s.phase ≡ p → p ≡ alive → in_time p x s.early ≡ s.submitted ++ x ∷ []
  pushed_early alive e a = ap (λ l. l ++ x ∷ []) (v.open_early e)
  pushed_early (pushing i) e a = cc
  pushed_early (joining i) e a = cc
  pushed_early destroyed e a = cc

  push-Inv : Inv n (push x s)
  push-Inv = record {
    kept =
        ap (λ l. s.started ++ l) (tasks-execute x s.queue)
        ∙ sym (append_assoc s.started (tasks s.queue) (x ∷ []))
        ∙ ap (λ l. l ++ x ∷ []) v.kept;
    in_front = pushed_front s.phase refl;
    drained = pushed_drained s.phase refl;
    open_queue = λ e. NoStop-execute x s.queue (v.open_queue e);
    open_early = pushed_early s.phase refl;
    open_workers = v.open_workers;
    below = v.below;
  }

module _ {n : ℕ} {s : Pool} (v : Inv n s) where
  take-Inv :
      (i x : ℕ) (rest : List Task)
      → s.queue ≡ execute x ∷ rest
      → s.workers i ≡ waiting
      → Inv n (record s {
        queue = rest;
        workers = put i (running x) s.workers;
        started = s.started ++ x ∷ [];
      })
  take-Inv i x rest e w = record {
    kept =
        append_assoc s.started (x ∷ []) (tasks rest)
        ∙ ap (λ q. s.started ++ tasks q) (sym e)
        ∙ v.kept;
    in_front =
        subst (IsPrefix s.early)
          (ap (λ q. s.started ++ front q) e ∙ sym (append_assoc s.started (x ∷ []) (front rest)))
          v.in_front;
    drained = λ j h. prefix-longer s.early s.started (x ∷ []) (v.drained j (ground arith));
    open_queue = λ a. subst NoStop e (v.open_queue a);
    open_early = v.open_early;
    open_workers = λ a j h. v.open_workers a j (ground arith);
    below = λ j h. ground (arith, v.below j h);
  }

  finish-Inv :
      (i x : ℕ) → s.workers i ≡ running x → Inv n (record s { workers = put i waiting s.workers })
  finish-Inv i x e = record {
    kept = v.kept;
    in_front = v.in_front;
    drained = λ j h. v.drained j (ground arith);
    open_queue = v.open_queue;
    open_early = v.open_early;
    open_workers = λ a j h. v.open_workers a j (ground arith);
    below = λ j h. ground (arith, v.below j h);
  }

  quit-Inv :
      (i : ℕ) (rest : List Task)
      → s.queue ≡ stop ∷ rest
      → Inv n (record s { queue = rest; workers = put i stopped s.workers })
  quit-Inv i rest e =
      let closing : s.phase ≢ alive = λ a. subst NoStop e (v.open_queue a) in
      let seen : IsPrefix s.early s.started =
        subst (IsPrefix s.early) (ap (λ q. s.started ++ front q) e ∙ append-nil s.started)
          v.in_front in
      record {
        kept = ap (λ q. s.started ++ tasks q) (sym e) ∙ v.kept;
        in_front = prefix-longer s.early s.started (front rest) seen;
        drained = λ j h. seen;
        open_queue = λ a. absurd (closing a);
        open_early = λ a. absurd (closing a);
        open_workers = λ a. absurd (closing a);
        below = λ j h. ground (arith, v.below j h);
      }

  destroy-Inv : s.phase ≡ alive → Inv n (record s { phase = pushing 0 })
  destroy-Inv e = record {
    kept = v.kept;
    in_front = v.in_front;
    drained = v.drained;
    open_queue = λ a. cc;
    open_early = λ a. cc;
    open_workers = λ a. cc;
    below = λ j h. absurd (omega arith);
  }

  push_stop-Inv :
      (i : ℕ)
      → s.phase ≡ pushing i
      → Inv n (record s { queue = enqueue stop s.queue; phase = joining i })
  push_stop-Inv i e = record {
    kept = ap (λ l. s.started ++ l) (tasks-stop s.queue) ∙ v.kept;
    in_front =
        subst (IsPrefix s.early) (ap (λ l. s.started ++ l) (sym (front-stop s.queue))) v.in_front;
    drained = v.drained;
    open_queue = λ a. cc;
    open_early = λ a. cc;
    open_workers = λ a. cc;
    below = λ j h. v.below j (rw e h);
  }

  join-Inv :
      (i : ℕ)
      → s.phase ≡ joining i
      → s.workers i ≡ stopped
      → Inv n (record s { phase = pushing (suc i) })
  join-Inv i e done = record {
    kept = v.kept;
    in_front = v.in_front;
    drained = v.drained;
    open_queue = λ a. cc;
    open_early = λ a. cc;
    open_workers = λ a. cc;
    below = λ j h. elim (dec_lt j i) [
      | yes old ↦ v.below j (rw e old)
      | no last ↦ subst (λ k. s.workers k ≡ stopped) {x = i} {y = j} (omega arith) done
    ];
  }

  leave-Inv : s.phase ≡ pushing n → Inv n (record s { phase = destroyed })
  leave-Inv e = record {
    kept = v.kept;
    in_front = v.in_front;
    drained = v.drained;
    open_queue = λ a. cc;
    open_early = λ a. cc;
    open_workers = λ a. cc;
    below = λ j h. v.below j (rw e h);
  }

  step-Inv : {t : Pool} → Step n s t → Inv n t
  step-Inv (submit x a e) = rw e (push-Inv v x)
  step-Inv (spawn i x y lt w e) = rw e (push-Inv v x)
  step-Inv (take i x rest lt w q e) = rw e (take-Inv i x rest q w)
  step-Inv (finish i x lt w e) = rw e (finish-Inv i x w)
  step-Inv (quit i rest lt w q e) = rw e (quit-Inv i rest q)
  step-Inv (destroy a e) = rw e (destroy-Inv a)
  step-Inv (push_stop i lt a e) = rw e (push_stop-Inv i a)
  step-Inv (join i a w e) = rw e (join-Inv i a w)
  step-Inv (leave a e) = rw e (leave-Inv a)

pub Reach-Inv : {n : ℕ} {t : Pool} → Reach n init t → Inv n t
Reach-Inv {n} here = init-Inv n
Reach-Inv (next r st) = step-Inv (Reach-Inv r) st
