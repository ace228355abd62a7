-- ===== src/Clients/Same.antt =====
-- The server with `poll` does what the server with `select` does.
use cpp_socket_programming.Prelude.{
  ℕ, ◌≡◌, refl, ap, ◌∙◌, ℤ, pos, ◌==ℤ◌, List, [], ◌∷◌, ◌++◌, Option, none, some, map, Bool-cases,
  inl, inr,
}
use cpp_socket_programming.Clients.{
  Events, Effect, accept_select, serve_select, read_set, pass_select, revents, accept_poll,
  serve_poll, pass_poll, with_slots, and_then, run_select, run_poll,
}
use cpp_socket_programming.Clients.Ready.{
  to_poll, in_poll, AllReal, AllWithin, IsNew, in_pair, accept_poll-map, serve_poll-map,
  seated-Agree, positive_ne_minus_one,
}

accept-map :
    (sock : ℕ) (accepted : Option ℤ) (slots : List ℤ)
    → AllReal slots
    → IsNew sock accepted slots
    → accept_poll accepted (map to_poll slots) ≡ in_pair (accept_select accepted slots)
unfolding accept_poll accept_select in_pair
accept-map sock none slots all new = refl
accept-map sock (some fd) slots all new = accept_poll-map fd slots new.0 all

in_poll-with_slots :
    (seated : List ℤ × List Effect) (served : Option (List Effect))
    → with_slots (in_pair seated) served ≡ in_poll (with_slots seated served)
unfolding in_pair
in_poll-with_slots seated none = refl
in_poll-with_slots seated (some after) = refl

pass_poll-map :
    (sock : ℕ) (ev : Events) (slots : List ℤ)
    → AllReal slots
    → AllWithin sock slots
    → IsNew sock ev.accepted slots
    → pass_poll ev (map to_poll slots) ≡ in_poll (pass_select sock ev slots)
unfolding pass_poll pass_select in_pair
pass_poll-map sock ev slots all near new =
    let seated = accept_select ev.accepted slots in
    let served : serve_poll (revents ev (map to_poll slots)) ev.received (map to_poll seated.0)
        ≡ serve_select (read_set sock ev slots) ev.received seated.0 =
      serve_poll-map (read_set sock ev slots) ev.received _ seated.0
        (seated-Agree sock ev slots all near new) in
    rw (accept-map sock ev.accepted slots all new, served) (in_poll-with_slots seated _)

accept-AllReal :
    (sock : ℕ) (accepted : Option ℤ) (slots : List ℤ)
    → AllReal slots
    → IsNew sock accepted slots
    → AllReal (accept_select accepted slots).0
unfolding accept_select
accept-AllReal sock none slots all new = all
accept-AllReal sock (some fd) slots all new = go slots all
  where
    go : (part : List ℤ) → AllReal part → AllReal (accept_select (some fd) part).0
    go [] all = tt
    go (x ∷ part) all = elim (Bool-cases (x ==ℤ pos 0)) [
      | inl free ↦ rw free (positive_ne_minus_one fd new.0, all.1)
      | inr taken ↦ rw taken (all.0, go part all.1)
    ]

accept-AllWithin :
    (sock : ℕ) (accepted : Option ℤ) (slots : List ℤ)
    → AllWithin sock slots
    → IsNew sock accepted slots
    → AllWithin sock (accept_select accepted slots).0
unfolding accept_select
accept-AllWithin sock none slots near new = near
accept-AllWithin sock (some fd) slots near new = go slots near
  where
    go : (part : List ℤ) → AllWithin sock part → AllWithin sock (accept_select (some fd) part).0
    go [] near = tt
    go (x ∷ part) near = elim (Bool-cases (x ==ℤ pos 0)) [
      | inl free ↦ rw free (new.2, near.1)
      | inr taken ↦ rw taken (near.0, go part near.1)
    ]

-- What `accept` gives is new in every pass.
abbrev pub AllNew : ℕ → List Events → List ℤ → Type 0
AllNew sock [] slots = Unit {0}
AllNew sock (ev ∷ evs) slots =
    IsNew sock ev.accepted slots × AllNew sock evs (accept_select ev.accepted slots).0

abbrev behind : List Effect → Option (List ℤ × List Effect) → Option (List ℤ × List Effect)
behind before r = elim r [ none ↦ none | some (slots, after) ↦ some (slots, before ++ after) ]

behind-in_poll :
    (before : List Effect) (r : Option (List ℤ × List Effect))
    → behind before (in_poll r) ≡ in_poll (behind before r)
behind-in_poll before none = refl
behind-in_poll before (some (slots, after)) = refl

-- The places behind a pass are those behind its `accept`.
pub pass_select-slots :
    (sock : ℕ) (ev : Events) (slots slots' : List ℤ) (effects : List Effect)
    → pass_select sock ev slots ≡ some (slots', effects)
    → slots' ≡ (accept_select ev.accepted slots).0
unfolding pass_select
pass_select-slots sock ev slots slots' effects e =
    go (serve_select (read_set sock ev slots) ev.received (accept_select ev.accepted slots).0) e
  where
    go :
        (served : Option (List Effect))
        → with_slots (accept_select ev.accepted slots) served ≡ some (slots', effects)
        → slots' ≡ (accept_select ev.accepted slots).0
    go none e = cc
    go (some after) e = cc

and_then-in_poll :
    (sock : ℕ) (evs : List Events) (r : Option (List ℤ × List Effect))
    → ((slots : List ℤ) (effects : List Effect)
        → r ≡ some (slots, effects)
        → run_poll evs (map to_poll slots) ≡ in_poll (run_select sock evs slots))
    → and_then (in_poll r) (run_poll evs) ≡ in_poll (and_then r (run_select sock evs))
and_then-in_poll sock evs none h = refl
and_then-in_poll sock evs (some (slots, before)) h =
    ap (behind before) (h slots before refl) ∙ behind-in_poll before (run_select sock evs slots)

-- From the same clients, where no place holds -1, and as long as `accept` gives descriptors that
-- are above 0 and new, and that are at most 5 above the listening socket, as those of the clients in the
-- table: the two servers send the same, print the same, exit at the same passes, and hold the same
-- clients in the same places.
pub run_poll-run_select :
    (sock : ℕ) (evs : List Events) (slots : List ℤ)
    → AllReal slots
    → AllWithin sock slots
    → AllNew sock evs slots
    → run_poll evs (map to_poll slots) ≡ in_poll (run_select sock evs slots)
unfolding run_poll run_select
run_poll-run_select sock [] slots all near new = refl
run_poll-run_select sock (ev ∷ evs) slots all near new =
    let later =
      run_poll-run_select sock evs (accept_select ev.accepted slots).0
        (accept-AllReal sock ev.accepted slots all new.0)
        (accept-AllWithin sock ev.accepted slots near new.0) new.1 in
    rw (pass_poll-map sock ev slots all near new.0) (
      and_then-in_poll sock evs (pass_select sock ev slots)
        (λ slots' effects e. rw (pass_select-slots sock ev slots slots' effects e) later))
