-- ===== src/Relay.antt =====
-- The loops that pass bytes between a client and a target: passthrough-proxy/Proxy.cpp,
-- protocol-server/src/engine/interface/CProxySocket.cpp and connection-pool/src/proxy.cpp. A round of
-- a loop is what `select` and then `ReceiveBytes` give on the two sockets; a loop that has used up its
-- rounds is still waiting, which is `none`.
pub mod Accepting
pub mod Traffic
pub mod Same
pub mod Loan
pub mod Services
mod Tests
use cpp_socket_programming.Prelude.{
  ℕ, Bool, true, false, ◌&&◌, List, [], ◌∷◌, ◌++◌, Option, none, some, if◌then◌else◌,
}
use cpp_socket_programming.Balancer.{select_round_robin}
use cpp_socket_programming.Pool.{
  Driver, NodeOrder, Pool, Proxy, get_connection, valid, destroy_proxy,
}

abbrev pub Bytes : Type 0
Bytes = List ℕ

-- What a socket gives in a round: `none` where it is not readable, and no bytes where it is closed.
pub record Round : Type 0 where
  pub from_client : Option Bytes
  pub from_target : Option Bytes

pub data Effect : Type 0 where
  to_target to_client : Bytes → Effect
  closes_client closes_target : Effect

-- `SendBytes` of what was read, whose result nobody looks at: what stands in an effect is what is handed
-- to `send`.
abbrev pub passed : (Bytes → Effect) → Option Bytes → List Effect
passed to none = []
passed to (some b) = to b ∷ []

-- `still_connected` after one of the two reads.
abbrev pub connected : Option Bytes → Bool
connected none = true
connected (some []) = false
connected (some (b ∷ bytes)) = true

abbrev pub behind {ℓ} :
    {A : Type ℓ} → List Effect → Option (List Effect × A) → Option (List Effect × A)
behind before none = none
behind before (some (after, a)) = some (before ++ after, a)

-- The body of the loop of `RunProxyThread`.
unfoldable pub pass_on : Round → List Effect
pass_on r = passed to_target r.from_client ++ passed to_client r.from_target

unfoldable pub still_connected : Round → Bool
still_connected r = connected r.from_client && connected r.from_target

-- A round of a proxy whose `SocketSelect` throws where `select` fails: that, or what it finds.
pub data Polled : Type 0 where
  select_failed : Polled
  polled : Round → Polled

-- The loop, with what stands behind it: the rest is what it has not used, and no rest stands for an
-- exception that nothing catches, which ends the program.
unfoldable pub copy_rounds : List Polled → Option (List Effect × Option (List Polled))
unfolding pass_on still_connected
copy_rounds [] = none
copy_rounds (select_failed ∷ rest) = some ([], none)
copy_rounds (polled r ∷ rest) =
    let more = behind (pass_on r) (copy_rounds rest) in
    if still_connected r then more else some (pass_on r, some rest)

abbrev pub then_close :
    List Effect
    → Option (List Effect × Option (List Polled))
    → Option (List Effect × Option (List Polled))
then_close closes none = none
then_close closes (some (effects, none)) = some (effects, none)
then_close closes (some (effects, some rest)) = some (effects ++ closes, some rest)

-- `RunProxyThread` of the passthrough proxy: both sockets are closed by their destructors. The flag
-- tells whether the constructor of SocketClient returns; where it throws, nothing catches that either.
unfoldable pub run_proxy_thread : Bool → List Polled → Option (List Effect × Option (List Polled))
unfolding copy_rounds
run_proxy_thread false rounds = some ([], none)
run_proxy_thread true rounds = then_close (closes_client ∷ closes_target ∷ []) (copy_rounds rounds)

-- `CProxyHandler`, over the state `S` of the handler and its context; `none` is a std::exception.
pub record Handler (S : Type 0) : Type 0 where
  pub handle_upstream_data : Bytes → S → Option Bytes × S
  pub handle_downstream_data : Bytes → S → Option Bytes × S

-- One of the two `try` blocks: what is sent, whether the thread is still connected, and the state. An
-- exception is printed, and leaves `still_connected` as it is.
unfoldable pub handled :
    {S : Type 0}
    → (Bytes → S → Option Bytes × S)
    → (Bytes → Effect)
    → Option Bytes
    → S
    → List Effect × Bool × S
handled handle to none s = ([], true, s)
handled handle to (some b) s =
    let (response, s') = handle b s in
    elim response [ none ↦ ([], true, s') | some r ↦ (to r ∷ [], connected (some b), s') ]

module _ {S : Type 0} (h : Handler S) where
  -- The loop of `CProxySocket::ThreadHandler`; it closes neither socket. Its `SocketSelect` catches its own
  -- exception, and a round in which `select` fails is one that reads both sockets.
  unfoldable pub handle_rounds : List Round → S → Option (List Effect × (S × List Round))
  unfolding handled
  handle_rounds [] s = none
  handle_rounds (r ∷ rest) s =
      let (up, up_connected, s₁) = handled h.handle_upstream_data to_target r.from_client s in
      let (down, down_connected, s₂) =
        handled h.handle_downstream_data to_client r.from_target s₁ in
      let more = behind (up ++ down) (handle_rounds rest s₂) in
      if up_connected && down_connected then more else some (up ++ down, (s₂, rest))

-- How `ThreadHandler` ends: with no handler, with no server to choose from (a division by zero), with
-- a target that cannot be connected, or with its loop.
pub data Ended (T S : Type 0) : Type 0 where
  no_handler no_server : Ended T S
  not_connected : T → Ended T S
  relayed : T → Option (List Effect × (S × List Round)) → Ended T S

module _ {T S : Type 0} (connects : T → Bool) where
  abbrev pub relay_to : Handler S → Option T → List Round → S → Ended T S
  relay_to h none rounds s = no_server
  relay_to h (some target) rounds s =
      if connects target then relayed target (handle_rounds h rounds s) else not_connected target

  -- `CProxySocket::ThreadHandler`, with the index of the round robin strategy.
  unfoldable pub thread_handler :
      Option (Handler S) → Option ℕ → List T → List Round → S → Option ℕ × Ended T S
  unfolding handle_rounds select_round_robin
  thread_handler none current servers rounds s = (current, no_handler)
  thread_handler (some h) current servers rounds s =
      let (current', target) = select_round_robin current servers in
      (current', relay_to h target rounds s)

-- The loop of `RunProxyClientThread`. `Close` is followed by the destructor, which closes again.
unfoldable pub pool_rounds : List Polled → Option (List Effect × List Polled)
unfolding pass_on still_connected
pool_rounds [] = none
pool_rounds (select_failed ∷ rest) = some (closes_client ∷ closes_client ∷ [], rest)
pool_rounds (polled r ∷ rest) =
    let more = behind (pass_on r) (pool_rounds rest) in
    if still_connected r
    then more
    else some (pass_on r ++ (closes_client ∷ closes_client ∷ []), rest)

module _ {W : Type 0} (d : Driver W) (o : NodeOrder) where
  -- The start of `RunProxyClientThread`: a connection from the pool, or an exception that nothing
  -- catches, behind the destructor of the proxy.
  abbrev pub check_loan : (Proxy × Pool) × W → Option Proxy × Pool × W
  check_loan r =
      if valid r.0.0 r.0.1
      then (some r.0.0, r.0.1, r.1)
      else (none, destroy_proxy o r.0.0 r.0.1, r.1)

  unfoldable pub borrow : Pool → W → Option Proxy × Pool × W
  unfolding get_connection valid
  borrow p w = check_loan (get_connection d o p w)

  -- The end of the thread gives the loan back to the pool, which other threads have made into
  -- `meanwhile p`.
  abbrev pub give_back :
      (Pool → Pool)
      → Option (List Effect × List Polled)
      → Option Proxy × Pool × W
      → Option (List Effect × Pool × W)
  give_back meanwhile ended (none, p, w) = some ([], p, w)
  give_back meanwhile none (some x, p, w) = none
  give_back meanwhile (some (effects, rest)) (some x, p, w) =
      some (effects, destroy_proxy o x (meanwhile p), w)

  unfoldable pub run_proxy_client_thread :
      (Pool → Pool) → List Polled → Pool → W → Option (List Effect × Pool × W)
  unfolding borrow pool_rounds
  run_proxy_client_thread meanwhile rounds p w =
      give_back meanwhile (pool_rounds rounds) (borrow p w)
