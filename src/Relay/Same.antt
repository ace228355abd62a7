-- ===== src/Relay/Same.antt =====
-- With a handler that leaves the bytes as they are, the proxy of the protocol server relays what the
-- passthrough proxy does.
use cpp_socket_programming.Prelude.{
  ℕ, ◌<◌, ◌≡◌, refl, ap, ◌∙◌, map, if◌then◌else◌, Bool, true, ◌&&◌, List, [], ◌∷◌, Option, none,
  some, Bool-cases, inl, inr, length, get_elem?,
}
use cpp_socket_programming.Balancer.{next_index}
use cpp_socket_programming.Balancer.RoundRobin.{select_round_robin-answers}
use cpp_socket_programming.Relay.{
  Bytes, Round, Effect, to_target, to_client, passed, connected, behind, pass_on, still_connected,
  copy_rounds, Polled, polled, Handler, handled, handle_rounds, relayed, thread_handler,
}

abbrev pub echo : {S : Type 0} → Handler S
echo = record {
  handle_upstream_data = λ b s. (some b, s);
  handle_downstream_data = λ b s. (some b, s);
}

abbrev pub with_state :
    {S : Type 0} → S → Option (List Effect × List Round) → Option (List Effect × (S × List Round))
with_state s none = none
with_state s (some (effects, rest)) = some (effects, (s, rest))

-- The rounds of a proxy that changes nothing.
abbrev pub relay_rounds : List Round → Option (List Effect × List Round)
relay_rounds [] = none
relay_rounds (r ∷ rest) =
    let more = behind (pass_on r) (relay_rounds rest) in
    if still_connected r then more else some (pass_on r, rest)

-- The same with rounds in which no `select` fails.
abbrev pub all_polled :
    Option (List Effect × List Round) → Option (List Effect × Option (List Polled))
all_polled none = none
all_polled (some (effects, rest)) = some (effects, some (map polled rest))

behind-all_polled :
    (before : List Effect) (more : Option (List Effect × List Round))
    → behind before (all_polled more) ≡ all_polled (behind before more)
behind-all_polled before none = refl
behind-all_polled before (some (effects, rest)) = refl

copy_rounds-polled :
    (rounds : List Round) → copy_rounds (map polled rounds) ≡ all_polled (relay_rounds rounds)
unfolding copy_rounds
copy_rounds-polled [] = refl
copy_rounds-polled (r ∷ rest) = elim (Bool-cases (still_connected r)) [
  | inl on ↦ rw on (
      ap (behind (pass_on r)) (copy_rounds-polled rest)
      ∙ behind-all_polled (pass_on r) (relay_rounds rest))
  | inr off ↦ rw off refl
]

module _ {S : Type 0} where
  handled-echo :
      (to : Bytes → Effect) (read : Option Bytes) (s : S)
      → handled (λ b t. (some b, t)) to read s ≡ (passed to read, connected read, s)
  unfolding handled
  handled-echo to none s = refl
  handled-echo to (some b) s = refl

  behind-with_state :
      (s : S) (before : List Effect) (more : Option (List Effect × List Round))
      → behind before (with_state s more) ≡ with_state s (behind before more)
  behind-with_state s before none = refl
  behind-with_state s before (some (effects, rest)) = refl

  pub handle_rounds-echo :
      (rounds : List Round) (s : S)
      → handle_rounds echo rounds s ≡ with_state s (relay_rounds rounds)
  unfolding handle_rounds pass_on still_connected
  handle_rounds-echo [] s = refl
  handle_rounds-echo (r ∷ rest) s =
      rw
        (
          handled-echo to_target r.from_client s,
          handled-echo to_client r.from_target s,
          handle_rounds-echo rest s,
          behind-with_state s (pass_on r) (relay_rounds rest),
        )
        (elim (Bool-cases (connected r.from_client && connected r.from_target)) [
          | inl on ↦ rw on
          | inr off ↦ rw off
        ])

-- A client of the protocol server's proxy, with a handler that changes nothing and at least one
-- server, all of which accept, is joined to the next server in turn. In rounds in which no `select`
-- fails it does to the two sockets what the loop of the passthrough proxy does, ends with it or waits with it,
-- and leaves the handler's state as it is.
pub thread_handler-copy_rounds :
    {T S : Type 0} (connects : T → Bool) (current : Option ℕ) (servers : List T)
    (rounds : List Round) (s : S)
    → 0 < length servers
    → ((target : T) → connects target ≡ true)
    → let i = next_index current (length servers) in
      (target : T) × (result : Option (List Effect × List Round)) × (get_elem? servers i
        ≡ some target)
      × (thread_handler connects (some echo) current servers rounds s
          ≡ (some i, relayed target (with_state s result)))
      × (copy_rounds (map polled rounds) ≡ all_polled result)
unfolding thread_handler
thread_handler-copy_rounds connects current servers rounds s some_server accepts =
    let (target, e, found) = select_round_robin-answers current servers some_server in
    (
      target,
      relay_rounds rounds,
      found,
      rw (e, accepts target, handle_rounds-echo rounds s),
      copy_rounds-polled rounds,
    )
