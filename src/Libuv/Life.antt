-- ===== src/Libuv/Life.antt =====
-- The callbacks keep the handles in pairs.
use cpp_socket_programming.Prelude.{
  ℕ, suc, ◌+◌, ◌-◌, ◌*◌, ◌≡◌, refl, ◌≢◌, true, List, [], ◌∷◌, ◌++◌, Option, none, some, Bool-cases,
  inl, inr,
}
use cpp_socket_programming.Libuv.Paired.{
  IsPaired, init-IsPaired, close_pair-IsPaired, accept_pair-IsPaired, keep-IsPaired,
}
use cpp_socket_programming.Libuv.{
  Bytes, State, init, put, close_handle, on_alloc, free_buffer, Read, failed, bytes, on_read,
  Answers, accept_pair, on_new_connection, Event, connection, read, step, run,
}

pub some_peer : (o : Option ℕ) → o ≢ none → (p : ℕ) × (o ≡ some p)
some_peer none h = absurd (h refl)
some_peer (some p) h = (p, refl)

pub on_new_connection-IsPaired :
    (a : Answers) (s : State)
    → a.resolved ≡ true
    → IsPaired s
    → (s' : State) × (on_new_connection a s ≡ some s') × IsPaired s'
unfolding on_new_connection
on_new_connection-IsPaired a s found v = elim (Bool-cases a.connected) [
  | inl on ↦ (
    accept_pair (2 * s.pairs) (2 * s.pairs + 1) a (record s { pairs = suc s.pairs }),
    rw (on, found),
    accept_pair-IsPaired s v a,
  )
  | inr off ↦ (s, rw off, v)
]

on_read-IsPaired :
    (h p : ℕ) (r : Read) (s : State)
    → s.peer h ≡ some p
    → s.closings h ≡ 0
    → IsPaired s
    → (s' : State) × (on_read h r (on_alloc s) ≡ some s') × IsPaired s'
unfolding on_read
on_read-IsPaired h p failed s e unclosed v =
    let closed = close_handle p (close_handle h s) in
    (
      free_buffer (close_handle p (close_handle h (on_alloc s))),
      rw e,
      keep-IsPaired closed (close_pair-IsPaired s v h p e unclosed) s.written (suc s.unfreed - 1),
    )
on_read-IsPaired h p (bytes []) s e unclosed v =
    (on_alloc s, refl, keep-IsPaired s v s.written (suc s.unfreed))
on_read-IsPaired h p (bytes (b ∷ rest)) s e unclosed v =
    let w : ℕ → Bytes = put p (s.written p ++ (b ∷ rest)) s.written in
    (
      record s { written = w; unfreed = suc s.unfreed - 1 },
      rw e,
      keep-IsPaired s v w (suc s.unfreed - 1),
    )

pub step_read-IsPaired :
    (h : ℕ) (r : Read) (s : State)
    → IsPaired s
    → (s' : State) × (step (read h r) s ≡ some s') × IsPaired s'
unfolding step
step_read-IsPaired h r s v = elim (Bool-cases (s.reading h)) [
  | inl on ↦
      let (p, e) = some_peer (s.peer h) (v.known h on) in
      let (s', run_, v') = on_read-IsPaired h p r s e (v.not_closed h on) v in
      (s', rw (on, run_), v')
  | inr off ↦ (s, rw off, v)
]

-- The host of a connection is found.
abbrev pub IsResolved : Event → Type 0
IsResolved (connection a) = a.resolved ≡ true
IsResolved (read h r) = Unit {0}

pub step-IsPaired :
    (e : Event) (s : State)
    → IsResolved e
    → IsPaired s
    → (s' : State) × (step e s ≡ some s') × IsPaired s'
unfolding step
step-IsPaired (connection a) s found v = on_new_connection-IsPaired a s found v
step-IsPaired (read h r) s found v = step_read-IsPaired h r s v

abbrev pub AllResolved : List Event → Type 0
AllResolved [] = Unit {0}
AllResolved (e ∷ events) = IsResolved e × AllResolved events

run-some :
    (events : List Event) (s : State)
    → AllResolved events
    → IsPaired s
    → (s' : State) × (run events s ≡ some s') × IsPaired s'
unfolding run
run-some [] s found v = (s, refl, v)
run-some (e ∷ events) s found v =
    let (s₁, first, v₁) = step-IsPaired e s found.0 v in
    let (s₂, later, v₂) = run-some events s₁ found.1 v₁ in (s₂, rw (first, later), v₂)

-- Through any events, as long as hosts are found, no callback meets a null pointer, and a handle and
-- its peer are peers of each other, are closed together and at most once each, and are not read
-- behind that.
pub run-IsPaired :
    (events : List Event)
    → AllResolved events
    → (s : State) × (run events init ≡ some s) × IsPaired s
run-IsPaired events found = run-some events init found init-IsPaired
