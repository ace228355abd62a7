-- ===== src/Socket/Leak.antt =====
-- `operator=` forgets the counter that its target had.
use cpp_socket_programming.Prelude.{
  ℕ, ◌<◌, ◌≡◌, refl, ◌∙◌, ◌≢◌, inl, inr, true, List, [], ◌∷◌, Option, none, some, arith, Bool-cases,
  ==_self, if◌then◌else◌, length,
}
use cpp_socket_programming.Socket.Refs.{
  holders, closings, holders-set, slot-lt, holders-slot, IsCounted,
}
use cpp_socket_programming.Socket.Life.{
  Handle, Store, Action, constructs, copies, assigns, destroys, slot, is_vacant, construct, share,
  drop_object, with_handle, step, run,
}
use cpp_socket_programming.Socket.Close.{vacant-parts}

-- The counter is above the number of the objects that share it.
record IsLeaked (c : ℕ) (s : Store) : Type 0 where
  old : c < s.fresh
  above : holders c s.objects < s.counters c

construct-IsLeaked :
    (c i fd : ℕ) (s : Store)
    → is_vacant i s ≡ true
    → IsLeaked c s
    → IsLeaked c (construct i fd s) × (closings c (construct i fd s).closed ≡ closings c s.closed)
unfolding construct
construct-IsLeaked c i fd s e v =
    let moved =
      holders-set c i (some (record { counter = s.fresh; descriptor = fd })) s.objects
        (vacant-parts i s e).0 in
    (record { old = omega (arith, v.old); above = ground (arith, moved, v.old, v.above) }, refl)

share-IsLeaked :
    (c i : ℕ) (h : Handle) (s : Store)
    → i < length s.objects
    → IsLeaked c s
    → IsLeaked c (share i h s) × (closings c (share i h s).closed ≡ closings c s.closed)
unfolding share
share-IsLeaked c i h s lt v =
    let moved = holders-set c i (some h) s.objects lt in
    (record { old = v.old; above = ground (arith, moved, v.above) }, refl)

drop-IsLeaked :
    (c i : ℕ) (h : Handle) (s : Store)
    → slot i s ≡ some h
    → IsLeaked c s
    → IsLeaked c (drop_object i h s) × (closings c (drop_object i h s).closed ≡ closings c s.closed)
unfolding drop_object
drop-IsLeaked c i h s e v =
    let moved = holders-set c i none s.objects (slot-lt i s.objects h e) in
    let shared = holders-slot i s.objects h e in
    (
      record { old = v.old; above = ground (arith, moved, e, v.above, shared) },
      ground (arith, v.above, shared),
    )

-- A leaked counter stays leaked through every action, and nothing closes its descriptor.
IsKept : ℕ → Store → Store → Type 0
IsKept c s t = IsLeaked c t × (closings c t.closed ≡ closings c s.closed)

constructs-IsKept : (c i fd : ℕ) (s : Store) → IsLeaked c s → IsKept c s (step (constructs i fd) s)
unfolding step IsKept
constructs-IsKept c i fd s v = elim (Bool-cases (is_vacant i s)) [
  | inl e ↦ rw e (construct-IsLeaked c i fd s e v)
  | inr e ↦ rw e (v, refl)
]

copy-IsKept :
    (c i : ℕ) (s : Store) (o : Option Handle)
    → IsLeaked c s
    → IsKept c s (with_handle o (λ h. if is_vacant i s then share i h s else s) s)
unfolding IsKept
copy-IsKept c i s none v = (v, refl)
copy-IsKept c i s (some h) v = elim (Bool-cases (is_vacant i s)) [
  | inl e ↦ rw e (share-IsLeaked c i h s (vacant-parts i s e).0 v)
  | inr e ↦ rw e (v, refl)
]

assign-IsKept :
    (c i : ℕ) (s : Store) (o p : Option Handle)
    → slot i s ≡ o
    → IsLeaked c s
    → IsKept c s (with_handle o (λ old. with_handle p (λ h. share i h s) s) s)
unfolding IsKept
assign-IsKept c i s none p e v = (v, refl)
assign-IsKept c i s (some old) none e v = (v, refl)
assign-IsKept c i s (some old) (some h) e v = share-IsLeaked c i h s (slot-lt i s.objects old e) v

destroy-IsKept :
    (c i : ℕ) (s : Store) (o : Option Handle)
    → slot i s ≡ o
    → IsLeaked c s
    → IsKept c s (with_handle o (λ h. drop_object i h s) s)
unfolding IsKept
destroy-IsKept c i s none e v = (v, refl)
destroy-IsKept c i s (some h) e v = drop-IsLeaked c i h s e v

step-IsKept : (c : ℕ) (act : Action) (s : Store) → IsLeaked c s → IsKept c s (step act s)
unfolding step
step-IsKept c (constructs i fd) s v = constructs-IsKept c i fd s v
step-IsKept c (copies i j) s v = copy-IsKept c i s (slot j s) v
step-IsKept c (assigns i j) s v = assign-IsKept c i s (slot i s) (slot j s) refl v
step-IsKept c (destroys i) s v = destroy-IsKept c i s (slot i s) refl v

run-IsKept : (c : ℕ) (acts : List Action) (s : Store) → IsLeaked c s → IsKept c s (run acts s)
unfolding run IsKept
run-IsKept c [] s v = (v, refl)
run-IsKept c (act ∷ rest) s v =
    let (kept, same) = step-IsKept c act s v in
    let (kept', same') = run-IsKept c rest (step act s) kept in (kept', same' ∙ same)

share-leaks :
    (i : ℕ) (old h : Handle) (s : Store)
    → IsCounted s
    → slot i s ≡ some old
    → h.counter ≢ old.counter
    → IsLeaked old.counter (share i h s)
unfolding share
share-leaks i old h s v e apart =
    let c : ℕ = old.counter in
    let moved = holders-set c i (some h) s.objects (slot-lt i s.objects old e) in
    let shared = holders-slot i s.objects old e in
    record {
      old = ground (arith, v.known c, shared);
      above = ground (arith, moved, e, v.counted c, v.known c, shared, apart, ==_self c);
    }

-- `o_i = o_j` between sockets that do not share a counter: the counter of o_i's old descriptor is
-- never counted down for it, and whatever happens afterwards, that descriptor is not closed again.
assigns-never_closed :
    (i j : ℕ) (old h : Handle) (s : Store) (later : List Action)
    → IsCounted s
    → slot i s ≡ some old
    → slot j s ≡ some h
    → h.counter ≢ old.counter
    → closings old.counter (run later (step (assigns i j) s)).closed ≡ closings old.counter s.closed
unfolding step IsKept share
assigns-never_closed i j old h s later v ei ej apart =
    rw (ei, ej) (run-IsKept old.counter later (share i h s) (share-leaks i old h s v ei apart)).1
