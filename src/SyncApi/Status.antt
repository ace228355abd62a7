-- ===== src/SyncApi/Status.antt =====
-- The status of one task, among calls for others.
use cpp_socket_programming.Text.{Text}
use cpp_socket_programming.Prelude.{
  ◌≡◌, refl, ap, ◌∙◌, ◌≢◌, Bool, true, false, List, [], ◌∷◌, some, arith, ◌||◌, if◌then◌else◌,
  Option-cases, inl, inr,
}
use cpp_socket_programming.SyncApi.{
  Handler, same, assign, response_received, complete_task, open_task, look_up, check_status,
  make_check_response,
}

pub same_self : (x : Text) → same x x ≡ true
unfolding same
same_self [] = refl
same_self (c ∷ cs) = ground (arith, same_self cs)

pub same-eq : (x y : Text) → same x y ≡ true → x ≡ y
unfolding same
same-eq [] [] h = refl
same-eq [] (d ∷ ds) h = cc
same-eq (c ∷ cs) [] h = cc
same-eq (c ∷ cs) (d ∷ ds) h = ground (arith, same-eq cs ds)

-- A CONNECT that is given the id, the completion of its task, and a CHECK_STATUS for it.
pub data Action : Type 0 where
  connects completes checks : Text → Action

unfoldable pub act : Action → Handler → Handler
unfolding open_task complete_task look_up
act (connects id) s = open_task id s
act (completes id) s = complete_task id s
act (checks id) s = (look_up id s).1

unfoldable pub run : List Action → Handler → Handler
unfolding act
run [] s = s
run (a ∷ rest) s = run rest (act a s)

abbrev pub NoConnect : Text → List Action → Type 0
NoConnect id [] = Unit {0}
NoConnect id (connects x ∷ rest) = (x ≢ id) × NoConnect id rest
NoConnect id (completes x ∷ rest) = NoConnect id rest
NoConnect id (checks x ∷ rest) = NoConnect id rest

-- Whether one of the actions completes the task.
abbrev pub is_completed : Text → List Action → Bool
is_completed id [] = false
is_completed id (connects x ∷ rest) = is_completed id rest
is_completed id (completes x ∷ rest) = same x id || is_completed id rest
is_completed id (checks x ∷ rest) = is_completed id rest

assign-ne :
    (x id r : Text) (s : Handler) → x ≢ id → (assign x r s).response_map id ≡ s.response_map id
unfolding assign
assign-ne x id r s apart = ground (arith, same-eq x id)

completes-found :
    (x id r : Text) (s : Handler)
    → s.response_map id ≡ some r
    → (complete_task x s).response_map id ≡ some (if same x id then response_received else r)
unfolding complete_task assign
completes-found x id r s e = ground arith

pub checks-found :
    (x id r : Text) (s : Handler)
    → s.response_map id ≡ some r
    → (look_up x s).1.response_map id ≡ some r
unfolding look_up assign
checks-found x id r s e = elim (Option-cases (s.response_map x)) [
  | inl h ↦ rw (h, look_up) (ground (arith, same-eq x id))
  | inr (y, h) ↦ rw (h, look_up) e
]

look_up-found : (id r : Text) (s : Handler) → s.response_map id ≡ some r → look_up id s ≡ (r, s)
unfolding look_up
look_up-found id r s e = rw (e, look_up)

pub run-found :
    (id r : Text) (acts : List Action) (s : Handler)
    → NoConnect id acts
    → s.response_map id ≡ some r
    → (run acts s).response_map id ≡ some (if is_completed id acts then response_received else r)
unfolding run act
run-found id r [] s apart e = e
run-found id r (connects x ∷ rest) s apart e =
    run-found id r rest (act (connects x) s) apart.1
      (unfold open_task in (assign-ne x id [] s apart.0 ∙ e))
run-found id r (completes x ∷ rest) s apart e =
    run-found id (if same x id then response_received else r) rest (act (completes x) s) apart
      (completes-found x id r s e)
    ∙ ground arith
run-found id r (checks x ∷ rest) s apart e =
    run-found id r rest (act (checks x) s) apart (checks-found x id r s e)

pub check_status-found :
    (id r raw : Text) (s : Handler)
    → s.response_map id ≡ some r
    → (check_status id raw s).response ≡ make_check_response r raw
unfolding check_status
check_status-found id r raw s e =
    ap (λ (f : Text × Handler). make_check_response f.0 raw) (look_up-found id r s e)

pub open_task-found : (id : Text) (s : Handler) → (open_task id s).response_map id ≡ some []
unfolding open_task assign
open_task-found id s = rw (same_self id)

-- Once a CONNECT has been given an id, the status of its task is pending until the task is completed,
-- and completed from then on, whatever is asked and completed and whoever connects meanwhile, as
-- long as the id is not given again.
check_status-run :
    (id raw : Text) (acts : List Action) (s : Handler)
    → NoConnect id acts
    → (check_status id raw (run acts (open_task id s))).response
      ≡ make_check_response (if is_completed id acts then response_received else []) raw
check_status-run id raw acts s apart =
    check_status-found id _ raw (run acts (open_task id s))
      (run-found id [] acts (open_task id s) apart (open_task-found id s))
