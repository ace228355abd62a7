-- ===== src/Clients/Full.antt =====
-- A client that leaves is not noticed, so the table only fills up.
use cpp_socket_programming.Prelude.{
  ℕ, ◌≡◌, refl, ◌≢◌, ℤ, pos, ◌==ℤ◌, ==ℤ_iff, Bool, ◌&&◌, not, List, [], ◌∷◌, ◌++◌, Option, none,
  some, arith, Bool-cases, inl, inr,
}
use cpp_socket_programming.Clients.{
  Received, end_of_stream, failed, bytes, Events, Effect, greets, prints, process_request,
  accept_select, serve_select, read_set, pass_select, run_select,
}

-- No place is free.
abbrev pub AllTaken : List ℤ → Type 0
AllTaken [] = Unit {0}
AllTaken (x ∷ slots) = (x ≢ pos 0) × AllTaken slots

-- No read fails.
abbrev pub NoFailure : List Events → Type 0
NoFailure [] = Unit {0}
NoFailure (ev ∷ evs) = ((fd : ℤ) → ev.received fd ≢ failed) × NoFailure evs

abbrev pub NoGreeting : List Effect → Type 0
NoGreeting [] = Unit {0}
NoGreeting (greets fd ∷ effects) = ⊥
NoGreeting (prints fd m ∷ effects) = NoGreeting effects

NoGreeting-append : (xs ys : List Effect) → NoGreeting xs → NoGreeting ys → NoGreeting (xs ++ ys)
NoGreeting-append [] ys h k = k
NoGreeting-append (greets fd ∷ xs) ys h k = absurd h
NoGreeting-append (prints fd m ∷ xs) ys h k = NoGreeting-append xs ys h k

accept-full :
    (accepted : Option ℤ) (slots : List ℤ)
    → AllTaken slots
    → accept_select accepted slots ≡ (slots, [])
unfolding accept_select
accept-full none slots all = refl
accept-full (some fd) slots all = go slots all
  where
    go : (part : List ℤ) → AllTaken part → accept_select (some fd) part ≡ (part, [])
    go [] all = refl
    go (x ∷ part) all = ground (arith, ==ℤ_iff x (pos 0), go part all.1)

process_request-total :
    (fd : ℤ) (r : Received)
    → r ≢ failed
    → (effects : List Effect) × (process_request fd r ≡ some effects) × NoGreeting effects
unfolding process_request
process_request-total fd end_of_stream h = (_, refl, tt)
process_request-total fd failed h = absurd (h refl)
process_request-total fd (bytes m) h = (_, refl, tt)

serve-total :
    (readfds : ℤ → Bool) (received : ℤ → Received) (slots : List ℤ)
    → ((fd : ℤ) → received fd ≢ failed)
    → (effects : List Effect) × (serve_select readfds received slots ≡ some effects)
      × NoGreeting effects
unfolding serve_select
serve-total readfds received [] ok = ([], refl, tt)
serve-total readfds received (x ∷ slots) ok =
    let (after, e, quiet) = serve-total readfds received slots ok in
    let (before, b, plain) = process_request-total x (received x) (ok x) in
    elim (Bool-cases (not (x ==ℤ pos 0) && readfds x)) [
      | inl read ↦ (before ++ after, rw (read, b, e), NoGreeting-append before after plain quiet)
      | inr skip ↦ (after, rw (skip, e), quiet)
    ]

-- Once all places are taken, the server never greets anybody again, whoever leaves: as long as no
-- read fails, it runs on with the same table.
run_select-full :
    (sock : ℕ) (evs : List Events) (slots : List ℤ)
    → AllTaken slots
    → NoFailure evs
    → (effects : List Effect) × (run_select sock evs slots ≡ some (slots, effects))
      × NoGreeting effects
unfolding run_select pass_select
run_select-full sock [] slots all ok = ([], refl, tt)
run_select-full sock (ev ∷ evs) slots all ok =
    let (after, e, quiet) = run_select-full sock evs slots all ok.1 in
    let (served, s, plain) = serve-total (read_set sock ev slots) ev.received slots ok.0 in
    (
      served ++ after,
      rw (accept-full ev.accepted slots all, s, e),
      NoGreeting-append served after plain quiet,
    )
