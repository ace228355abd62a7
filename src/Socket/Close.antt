-- ===== src/Socket/Close.antt =====
-- A descriptor is closed with its last object, unless `operator=` was used.
use cpp_socket_programming.Prelude.{
  ℕ, zero, suc, ◌<◌, ◌≡◌, refl, inl, inr, true, List, [], ◌∷◌, Option, none, some, arith,
  Bool-cases, if◌then◌else◌, length, replicate,
}
use cpp_socket_programming.Socket.Refs.{
  holders, IsCounted, construct-IsCounted, share-IsCounted, drop-IsCounted,
}
use cpp_socket_programming.Socket.Life.{
  Handle, Store, Action, constructs, copies, assigns, destroys, slot, is_vacant, share, drop_object,
  with_handle, step, run,
}

-- Every action but `operator=`.
abbrev pub NoAssign : List Action → Type 0
NoAssign [] = Unit {0}
NoAssign (assigns i j ∷ rest) = ⊥
NoAssign (_ ∷ rest) = NoAssign rest

-- `count` objects' places, and nothing in them.
abbrev pub empty_store : ℕ → Store
empty_store count = record {
  objects = replicate count none;
  counters = λ _. 0;
  fresh = 0;
  closed = [];
  live = 0;
}

holders-empty : (c count : ℕ) → holders c (replicate count none) ≡ 0
holders-empty c zero = refl
holders-empty c (suc count) = omega (arith, holders-empty c count)

pub empty-IsCounted : (count : ℕ) → IsCounted (empty_store count)
empty-IsCounted count = record {
  counted = λ c h. absurd (omega arith);
  known = λ c h. (holders-empty c count, refl);
  once = λ c h. absurd (omega arith);
}

-- A place that passes the test is there and empty.
pub vacant-parts :
    (i : ℕ) (s : Store) → is_vacant i s ≡ true → (i < length s.objects) × (slot i s ≡ none)
vacant-parts i s e = ground arith

constructs-IsCounted : (i fd : ℕ) (s : Store) → IsCounted s → IsCounted (step (constructs i fd) s)
unfolding step
constructs-IsCounted i fd s v = elim (Bool-cases (is_vacant i s)) [
  | inl e ↦ rw e (construct-IsCounted i fd s (vacant-parts i s e).0 (vacant-parts i s e).1 v)
  | inr e ↦ rw e v
]

copy-IsCounted :
    (i j : ℕ) (s : Store) (o : Option Handle)
    → slot j s ≡ o
    → IsCounted s
    → IsCounted (with_handle o (λ h. if is_vacant i s then share i h s else s) s)
copy-IsCounted i j s none e v = v
copy-IsCounted i j s (some h) e v = elim (Bool-cases (is_vacant i s)) [
  | inl q ↦ rw q (share-IsCounted i j h s (vacant-parts i s q).0 (vacant-parts i s q).1 e v)
  | inr q ↦ rw q v
]

destroy-IsCounted :
    (i : ℕ) (s : Store) (o : Option Handle)
    → slot i s ≡ o
    → IsCounted s
    → IsCounted (with_handle o (λ h. drop_object i h s) s)
destroy-IsCounted i s none e v = v
destroy-IsCounted i s (some h) e v = drop-IsCounted i h s e v

pub run-IsCounted :
    (acts : List Action) (s : Store) → NoAssign acts → IsCounted s → IsCounted (run acts s)
unfolding run step
run-IsCounted [] s copied v = v
run-IsCounted (constructs i fd ∷ rest) s copied v =
    run-IsCounted rest (step (constructs i fd) s) copied (constructs-IsCounted i fd s v)
run-IsCounted (copies i j ∷ rest) s copied v =
    run-IsCounted rest (step (copies i j) s) copied (copy-IsCounted i j s (slot j s) refl v)
run-IsCounted (assigns i j ∷ rest) s copied v = absurd copied
run-IsCounted (destroys i ∷ rest) s copied v =
    run-IsCounted rest (step (destroys i) s) copied (destroy-IsCounted i s (slot i s) refl v)
