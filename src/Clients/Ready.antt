-- ===== src/Clients/Ready.antt =====
-- The places that `poll` finds ready, beside the descriptors that `select` does.
use cpp_socket_programming.Prelude.{
  ℕ, ◌≡◌, refl, sym, ap, ◌≢◌, ℤ, pos, negsuc, ◌==ℤ◌, ==ℤ_iff, ==ℤ_self, is_positive, Bool, true,
  false, ◌&&◌, List, [], ◌∷◌, Option, none, some, arith, if◌then◌else◌, map, Bool-cases, inl, inr,
}
use cpp_socket_programming.Chat.{is_client}
use cpp_socket_programming.Clients.{
  Received, Events, Effect, greets, accept_select, serve_select, read_set, revents, accept_poll,
  serve_poll, within,
}

-- A place of the one table as a place of the other.
abbrev pub to_poll : ℤ → ℤ
to_poll x = if x ==ℤ pos 0 then negsuc 0 else x

abbrev pub in_poll : Option (List ℤ × List Effect) → Option (List ℤ × List Effect)
in_poll none = none
in_poll (some (slots, effects)) = some (map to_poll slots, effects)

-- What `select` looks at holds all of the table.
abbrev pub AllWithin : ℕ → List ℤ → Type 0
AllWithin sock [] = Unit {0}
AllWithin sock (x ∷ slots) = (within sock x ≡ true) × AllWithin sock slots

-- No place holds -1, and what `accept` gives is a descriptor above 0 that is no client's, and that
-- `select` looks at.
abbrev pub AllReal : List ℤ → Type 0
AllReal [] = Unit {0}
AllReal (x ∷ slots) = (x ≢ negsuc 0) × AllReal slots

abbrev pub IsNew : ℕ → Option ℤ → List ℤ → Type 0
IsNew sock none slots = Unit {0}
IsNew sock (some fd) slots =
    (is_positive fd ≡ true) × (is_client fd slots ≡ false) × (within sock fd ≡ true)

unfoldable pub in_pair : List ℤ × List Effect → List ℤ × List Effect
in_pair (slots, effects) = (map to_poll slots, effects)

==ℤ-ne : (a b : ℤ) → a ≢ b → (a ==ℤ b) ≡ false
==ℤ-ne a b apart = ground (arith, ==ℤ_iff a b)

ne_of_==ℤ : (a b : ℤ) → (a ==ℤ b) ≡ false → a ≢ b
ne_of_==ℤ a b h e = ground (arith, ==ℤ_iff a b)

positive_ne_zero : (fd : ℤ) → is_positive fd ≡ true → (fd ==ℤ pos 0) ≡ false
positive_ne_zero (pos n) h = ground arith
positive_ne_zero (negsuc n) h = refl

pub positive_ne_minus_one : (fd : ℤ) → is_positive fd ≡ true → fd ≢ negsuc 0
positive_ne_minus_one (pos n) h e = cc
positive_ne_minus_one (negsuc n) h e = cc

pub accept_poll-map :
    (fd : ℤ) (slots : List ℤ)
    → is_positive fd ≡ true
    → AllReal slots
    → accept_poll (some fd) (map to_poll slots) ≡ in_pair (accept_select (some fd) slots)
unfolding accept_poll accept_select in_pair
accept_poll-map fd [] real all = refl
accept_poll-map fd (x ∷ slots) real all = elim (Bool-cases (x ==ℤ pos 0)) [
  | inl free ↦
      rw free
        (ap (λ y. (y ∷ map to_poll slots, greets fd ∷ [])) (sym (rw (positive_ne_zero fd real))))
  | inr taken ↦
      rw (taken, ==ℤ-ne x (negsuc 0) all.0, accept_poll-map fd slots real all.1)
        (ap
          (λ y.
            (y ∷ map to_poll (accept_select (some fd) slots).0, (accept_select (some fd) slots).1))
          (sym (rw taken)))
]

-- The places that `poll` found ready are those that `select` did, where the table has been changed
-- by `accept` alone.
abbrev Agree : (ℤ → Bool) → List Bool → List ℤ → Type 0
Agree readfds [] [] = Unit {0}
Agree readfds [] (x ∷ slots) = ⊥
Agree readfds (r ∷ ready) [] = ⊥
Agree readfds (r ∷ ready) (x ∷ slots) =
    (x ≢ negsuc 0) × (x ≢ pos 0 → r ≡ readfds x) × Agree readfds ready slots

pub serve_poll-map :
    (readfds : ℤ → Bool) (received : ℤ → Received) (ready : List Bool) (slots : List ℤ)
    → Agree readfds ready slots
    → serve_poll ready received (map to_poll slots) ≡ serve_select readfds received slots
unfolding serve_poll serve_select
serve_poll-map readfds received [] [] h = refl
serve_poll-map readfds received [] (x ∷ slots) h = absurd h
serve_poll-map readfds received (r ∷ ready) [] h = absurd h
serve_poll-map readfds received (r ∷ ready) (x ∷ slots) h = elim (Bool-cases (x ==ℤ pos 0)) [
  | inl free ↦ rw (free, serve_poll-map readfds received ready slots h.2)
  | inr taken ↦
      rw
        (
          taken,
          ==ℤ-ne x (negsuc 0) h.0,
          h.1 (ne_of_==ℤ x (pos 0) taken),
          serve_poll-map readfds received ready slots h.2,
        )
        refl
]

-- Each client of a part of the table is one of the whole.
abbrev pub Among : (ℤ → Bool) → List ℤ → Type 0
Among client [] = Unit {0}
Among client (x ∷ slots) = (x ≢ pos 0 → client x ≡ true) × Among client slots

module _ (ev : Events) (client : ℤ → Bool) where
  abbrev ready_client : ℤ → Bool
  ready_client x = client x && ev.can_read x

  revents-kept :
      (slots : List ℤ)
      → AllReal slots
      → Among client slots
      → Agree ready_client (revents ev (map to_poll slots)) slots
  unfolding revents
  revents-kept [] all h = tt
  revents-kept (x ∷ slots) all h = (
    all.0,
    λ used. rw (==ℤ-ne x (pos 0) used, ==ℤ-ne x (negsuc 0) all.0, h.0 used),
    revents-kept slots all.1 h.1,
  )

  revents-seated :
      (fd : ℤ) (slots : List ℤ)
      → is_positive fd ≡ true
      → client fd ≡ false
      → AllReal slots
      → Among client slots
      → Agree ready_client (revents ev (map to_poll slots)) (accept_select (some fd) slots).0
  unfolding revents accept_select
  revents-seated fd [] real new all h = tt
  revents-seated fd (x ∷ slots) real new all h = elim (Bool-cases (x ==ℤ pos 0)) [
    | inl free ↦
        rw free (positive_ne_minus_one fd real, (λ used. rw new), revents-kept slots all.1 h.1)
    | inr taken ↦
        rw (taken, ==ℤ-ne x (negsuc 0) all.0)
          (all.0, (λ used. rw (h.0 used)), revents-seated fd slots real new all.1 h.1)
  ]

Among-is_client :
    (sock : ℕ) (whole part : List ℤ)
    → AllWithin sock part
    → ((x : ℤ) → is_client x part ≡ true → is_client x whole ≡ true)
    → Among (λ x. is_client x whole && within sock x) part
unfolding is_client
Among-is_client sock whole [] near sub = tt
Among-is_client sock whole (x ∷ part) near sub = (
  λ used.
      let here_ : is_client x whole ≡ true = sub x (rw (==ℤ-ne x (pos 0) used, ==ℤ_self x)) in
      rw (here_, near.0),
  Among-is_client sock whole part near.1 (λ y h. sub y (ground (arith, h))),
)

pub seated-Agree :
    (sock : ℕ) (ev : Events) (slots : List ℤ)
    → AllReal slots
    → AllWithin sock slots
    → IsNew sock ev.accepted slots
    → Agree
        (read_set sock ev slots)
        (revents ev (map to_poll slots))
        (accept_select ev.accepted slots).0
unfolding read_set
seated-Agree sock ev slots all near new = go ev.accepted new
  where
    among : Among (λ x. is_client x slots && within sock x) slots
    among = Among-is_client sock slots slots near (λ x h. h)

    go :
        (accepted : Option ℤ)
        → IsNew sock accepted slots
        → Agree
            (λ x. (is_client x slots && within sock x) && ev.can_read x)
            (revents ev (map to_poll slots))
            (accept_select accepted slots).0
    go none new =
        unfold accept_select in
        revents-kept ev (λ x. is_client x slots && within sock x) slots all among
    go (some fd) new =
        revents-seated ev (λ x. is_client x slots && within sock x) fd slots new.0 (rw new.1 refl)
          all among
