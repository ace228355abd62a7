-- ===== src/Relay/Traffic.antt =====
-- What the passthrough proxy does to the bytes: it is a pair of channels that keep all of them in
-- order, until one of the sockets is closed.
use cpp_socket_programming.Prelude.{
  ◌≡◌, refl, sym, ap, ◌∙◌, true, false, List, [], ◌∷◌, ◌++◌, append_assoc, append-nil, map, Option,
  none, some, Bool-cases, ◌⊎◌, inl, inr, ◌≢◌, ◌&&◌,
}
use cpp_socket_programming.Relay.{
  Bytes, Round, Effect, connected, to_target, to_client, closes_client, closes_target, passed,
  pass_on, still_connected, copy_rounds, behind, Polled, select_failed, polled, run_proxy_thread,
}

-- The abstract view: two channels, each known by the bytes that have come out of it.
pub record Channels : Type 0 where
  pub upstream : Bytes
  pub downstream : Bytes

-- A step of the specification moves what came in to the other side.
abbrev pub bytes_of : Option Bytes → Bytes
bytes_of none = []
bytes_of (some b) = b

abbrev pub carry : Round → Channels → Channels
carry r c = record {
  upstream = c.upstream ++ bytes_of r.from_client;
  downstream = c.downstream ++ bytes_of r.from_target;
}

abbrev pub carry_all : List Round → Channels → Channels
carry_all [] c = c
carry_all (r ∷ rest) c = carry_all rest (carry r c)

-- What a list of effects does to the channels.
abbrev pub deliver : Effect → Channels → Channels
deliver (to_target b) c = record c { upstream = c.upstream ++ b }
deliver (to_client b) c = record c { downstream = c.downstream ++ b }
deliver closes_client c = c
deliver closes_target c = c

abbrev pub deliver_all : List Effect → Channels → Channels
deliver_all [] c = c
deliver_all (e ∷ rest) c = deliver_all rest (deliver e c)

pub deliver_all-append :
    (xs ys : List Effect) (c : Channels)
    → deliver_all (xs ++ ys) c ≡ deliver_all ys (deliver_all xs c)
deliver_all-append [] ys c = refl
deliver_all-append (x ∷ xs) ys c = deliver_all-append xs ys (deliver x c)

pub deliver_all-pass_on : (r : Round) (c : Channels) → deliver_all (pass_on r) c ≡ carry r c
unfolding pass_on
deliver_all-pass_on r c = go r.from_client r.from_target
  where
    go :
        (up down : Option Bytes)
        → deliver_all (passed to_target up ++ passed to_client down) c ≡ record {
          upstream = c.upstream ++ bytes_of up;
          downstream = c.downstream ++ bytes_of down;
        }
    go none none = rw (append-nil c.upstream, append-nil c.downstream)
    go none (some b) = rw (append-nil c.upstream)
    go (some b) none = rw (append-nil c.downstream)
    go (some b) (some b') = refl

-- No socket gave the end of its stream.
abbrev pub IsOpen : Round → Type 0
IsOpen r = (r.from_client ≢ some []) × (r.from_target ≢ some [])

abbrev pub IsClosed : Round → Type 0
IsClosed r = (r.from_client ≡ some []) ⊎ (r.from_target ≡ some [])

connected-true : (o : Option Bytes) → connected o ≡ true → o ≢ some []
connected-true none e = λ h. cc
connected-true (some []) e = cc
connected-true (some (b ∷ bytes)) e = λ h. cc

connected-false : (o : Option Bytes) → connected o ≡ false → o ≡ some []
connected-false none e = cc
connected-false (some []) e = refl
connected-false (some (b ∷ bytes)) e = cc

still_connected-IsOpen : (r : Round) → still_connected r ≡ true → IsOpen r
unfolding still_connected
still_connected-IsOpen r e = go r.from_client r.from_target e
  where
    go :
        (up down : Option Bytes)
        → (connected up && connected down) ≡ true
        → (up ≢ some []) × (down ≢ some [])
    go none down e = (λ h. cc, connected-true down e)
    go (some []) down e = cc
    go (some (b ∷ bytes)) down e = (λ h. cc, connected-true down e)

still_connected-IsClosed : (r : Round) → still_connected r ≡ false → IsClosed r
unfolding still_connected
still_connected-IsClosed r e = go r.from_client r.from_target e
  where
    go :
        (up down : Option Bytes)
        → (connected up && connected down) ≡ false
        → (up ≡ some []) ⊎ (down ≡ some [])
    go none down e = inr (connected-false down e)
    go (some []) down e = inl refl
    go (some (b ∷ bytes)) down e = inr (connected-false down e)

abbrev pub AllOpen : List Round → Type 0
AllOpen [] = Unit {0}
AllOpen (r ∷ rest) = IsOpen r × AllOpen rest

-- How a thread that ends has used its rounds: no socket was closed in any but the last.
abbrev pub Split : List Polled → Option (List Effect × Option (List Polled)) → List Effect → Type 0
Split rounds result closes =
    (used : List Round) × (last : Round) × (rest : List Polled) × (effects : List Effect) × (rounds
      ≡ map polled used ++ polled last ∷ rest)
    × AllOpen used
    × IsClosed last
    × (result ≡ some (effects ++ closes, some rest))
    × ((c : Channels) → deliver_all effects c ≡ carry_all (used ++ last ∷ []) c)

-- How a thread whose `select` fails has: no socket was closed before.
abbrev pub Thrown : List Polled → Option (List Effect × Option (List Polled)) → Type 0
Thrown rounds result =
    (used : List Round) × (rest : List Polled) × (effects : List Effect) × (rounds
      ≡ map polled used ++ select_failed ∷ rest)
    × AllOpen used
    × (result ≡ some (effects, none))
    × ((c : Channels) → deliver_all effects c ≡ carry_all used c)

-- How a thread that waits for more has.
abbrev pub Waiting : List Polled → Option (List Effect × Option (List Polled)) → Type 0
Waiting rounds result =
    (used : List Round) × (rounds ≡ map polled used) × AllOpen used × (result ≡ none)

-- A round in which no socket is closed comes in front.
module _ (r : Round) (rest : List Polled) (on : still_connected r ≡ true) where
  copy_rounds-on : copy_rounds (polled r ∷ rest) ≡ behind (pass_on r) (copy_rounds rest)
  unfolding copy_rounds
  copy_rounds-on = rw on refl

  on-Waiting :
      Waiting rest (copy_rounds rest) → Waiting (polled r ∷ rest) (copy_rounds (polled r ∷ rest))
  on-Waiting (used, parts, all, e) = (
    r ∷ used,
    ap (λ l. polled r ∷ l) parts,
    (still_connected-IsOpen r on, all),
    copy_rounds-on ∙ ap (behind (pass_on r)) e,
  )

  on-Thrown :
      Thrown rest (copy_rounds rest) → Thrown (polled r ∷ rest) (copy_rounds (polled r ∷ rest))
  on-Thrown (used, left, effects, parts, all, e, same) = (
    r ∷ used,
    left,
    pass_on r ++ effects,
    ap (λ l. polled r ∷ l) parts,
    (still_connected-IsOpen r on, all),
    copy_rounds-on ∙ ap (behind (pass_on r)) e,
    λ c.
        deliver_all-append (pass_on r) effects c
        ∙ same _
        ∙ ap (carry_all used) (deliver_all-pass_on r c),
  )

  on-Split :
      Split rest (copy_rounds rest) [] → Split (polled r ∷ rest) (copy_rounds (polled r ∷ rest)) []
  on-Split (used, last, left, effects, parts, all, off, e, same) = (
    r ∷ used,
    last,
    left,
    pass_on r ++ effects,
    ap (λ l. polled r ∷ l) parts,
    (still_connected-IsOpen r on, all),
    off,
    copy_rounds-on
        ∙ ap (behind (pass_on r)) e
        ∙ ap (λ l. some (l, some left)) (sym (append_assoc (pass_on r) effects [])),
    λ c.
        deliver_all-append (pass_on r) effects c
        ∙ same _
        ∙ ap (carry_all (used ++ last ∷ [])) (deliver_all-pass_on r c),
  )

copy_rounds-cases :
    (rounds : List Polled)
    → Waiting rounds (copy_rounds rounds)
      ⊎ (Thrown rounds (copy_rounds rounds) ⊎ Split rounds (copy_rounds rounds) [])
unfolding copy_rounds
copy_rounds-cases [] = inl ([], refl, tt, refl)
copy_rounds-cases (select_failed ∷ rest) = inr (inl ([], rest, [], refl, tt, refl, λ c. refl))
copy_rounds-cases (polled r ∷ rest) =
    let later = copy_rounds-cases rest in
    elim (Bool-cases (still_connected r)) [
      | inl on ↦ elim later [
        | inl waits ↦ inl (on-Waiting r rest on waits)
        | inr (inl thrown) ↦ inr (inl (on-Thrown r rest on thrown))
        | inr (inr split) ↦ inr (inr (on-Split r rest on split))
      ]
      | inr off ↦ inr (
          inr (
            [],
            r,
            rest,
            pass_on r,
            refl,
            tt,
            still_connected-IsClosed r off,
            rw off (ap (λ l. some (l, some rest)) (sym (append-nil (pass_on r)))),
            λ c. deliver_all-pass_on r c,
          ))
    ]

-- The passthrough proxy implements the two channels, where what comes out of a channel is what is handed
-- to `send`, whose result the code does not look at. Where the target cannot be connected, the thread ends
-- the program at once. Otherwise, as long as no socket gives the end of its stream and no `select` fails it
-- waits for more; where `select` fails before a socket is closed, it ends the program, and what came in
-- before, in order and nothing else, has been handed over; and where a socket is closed first, it stops
-- behind that round, having handed over in order what came in up to there on each side and nothing
-- else, and closes both sockets.
pub run_proxy_thread-refines :
    (rounds : List Polled)
    → (run_proxy_thread false rounds ≡ some ([], none))
      × (Waiting rounds (run_proxy_thread true rounds)
          ⊎ (Thrown rounds (run_proxy_thread true rounds)
              ⊎ Split rounds (run_proxy_thread true rounds) (closes_client ∷ closes_target ∷ [])))
unfolding run_proxy_thread
run_proxy_thread-refines rounds = (
  refl,
  elim (copy_rounds-cases rounds) [
    | inl (used, parts, all, e) ↦ inl (used, parts, all, rw e)
    | inr (inl (used, rest, effects, parts, all, e, same)) ↦
        inr (inl (used, rest, effects, parts, all, rw e, same))
    | inr (inr (used, last, rest, effects, parts, all, off, e, same)) ↦
        inr (inr (used, last, rest, effects, parts, all, off, rw (e, append-nil effects), same))
  ],
)
