-- ===== src/Relay/Services.antt =====
-- protocol-server/src/engine/interface/CProxySocket.h: the set-up of a proxy socket with its balancer,
-- and the clients that it serves, in the order in which their threads ask for a target.
use cpp_socket_programming.Balancer.{add_server, next_index, requests, select_round_robin}
use cpp_socket_programming.Balancer.RoundRobin.{requests-kth}
use cpp_socket_programming.Prelude.{
  ℕ, zero, suc, ◌+◌, ◌%◌, ◌<◌, ◌≡◌, refl, sym, ap, ◌∙◌, Bool, List, [], ◌∷◌, ◌++◌, append_assoc,
  append-nil, Option, none, some, arith, length, get_elem?,
}
use cpp_socket_programming.Relay.{Round, Handler, Ended, relay_to, thread_handler}

-- CProxySocket: before `Start` the pointer to the balancer is not set.
pub record ProxySocket (T S : Type 0) : Type 0 where
  pub handler : Option (Handler S)
  pub config : List T
  pub servers : Option (List T)

-- What a client sends and is sent, and the context of its thread.
pub record Client (S : Type 0) : Type 0 where
  pub rounds : List Round
  pub context : S

module _ {T : Type 0} where
  -- The loop of `Start` over the services.
  unfoldable pub add_servers : List T → List T → List T
  unfolding add_server
  add_servers servers [] = servers
  add_servers servers (x ∷ rest) = add_servers (add_server servers x) rest

  add_servers-append : (servers more : List T) → add_servers servers more ≡ servers ++ more
  unfolding add_servers
  add_servers-append servers [] = sym (append-nil servers)
  add_servers-append servers (x ∷ rest) =
      add_servers-append (servers ++ (x ∷ [])) rest ∙ append_assoc servers (x ∷ []) rest

module _ {T S : Type 0} where
  unfoldable pub set_handler : Option (Handler S) → ProxySocket T S → ProxySocket T S
  set_handler ph s = record s { handler = ph }

  unfoldable pub set_config_values : List T → ProxySocket T S → ProxySocket T S
  set_config_values services s = record s { config = services }

  -- `Start`, up to `Open`.
  unfoldable pub start : ProxySocket T S → ProxySocket T S
  unfolding add_servers
  start s = record s { servers = some (add_servers [] s.config) }

module _ {T S : Type 0} (connects : T → Bool) where
  -- The threads of clients over one index, in the order in which they ask for a target.
  unfoldable pub thread_each :
      Option (Handler S) → Option ℕ → List T → List (Client S) → Option ℕ × List (Ended T S)
  unfolding thread_handler
  thread_each h current servers [] = (current, [])
  thread_each h current servers (c ∷ clients) =
      let r = thread_handler connects h current servers c.rounds c.context in
      let more = thread_each h r.0 servers clients in (more.0, r.1 ∷ more.1)

  -- What a proxy socket does; without `Start` the behaviour is undefined.
  unfoldable pub serve_clients :
      ProxySocket T S → Option ℕ → List (Client S) → Option (Option ℕ × List (Ended T S))
  unfolding thread_each
  serve_clients s current clients = elim s.servers [
    | none ↦ none
    | some servers ↦ some (thread_each s.handler current servers clients)
  ]

  thread_each-requests :
      (h : Handler S) (servers : List T) (clients : List (Client S)) (c : Option ℕ) (k : ℕ)
      (x : Client S) (t : Option T)
      → get_elem? clients k ≡ some x
      → get_elem? (requests (λ i. select_round_robin i servers) (length clients) c).1 k ≡ some t
      → get_elem? (thread_each (some h) c servers clients).1 k
        ≡ some (relay_to connects h t x.rounds x.context)
  unfolding thread_each requests thread_handler
  thread_each-requests h servers [] c k x t e found = absurd cc
  thread_each-requests h servers (y ∷ clients) c zero x t e found =
      let same : y ≡ x = cc in
      let chosen : (select_round_robin c servers).1 ≡ t = cc in rw (same, chosen) refl
  thread_each-requests h servers (y ∷ clients) c (suc k) x t e found =
      thread_each-requests h servers clients (select_round_robin c servers).0 k x t e found

  get_elem?-lt :
      (clients : List (Client S)) (k : ℕ) (x : Client S)
      → get_elem? clients k ≡ some x
      → k < length clients
  get_elem?-lt [] k x e = absurd cc
  get_elem?-lt (y ∷ clients) zero x e = omega arith
  get_elem?-lt (y ∷ clients) (suc k) x e = omega (arith, get_elem?-lt clients k x e)

  -- A proxy socket with a handler and at least one service that has been started serves its clients in
  -- turn: the client number k, counted from 0 in the order in which the threads ask, is joined to the
  -- service k places, around the services, behind the first one that is chosen, or finds that it
  -- cannot be connected. `Start` gives the balancer the services in their order.
  pub serve_clients-kth :
      (h : Handler S) (services : List T) (s : ProxySocket T S) (current : Option ℕ)
      (clients : List (Client S)) (k : ℕ) (x : Client S)
      → 0 < length services
      → get_elem? clients k ≡ some x
      → let i = (next_index current (length services) + k) % length services in
        (last : Option ℕ) × (ends : List (Ended T S)) × (serve_clients
            (start (set_config_values services (set_handler (some h) s)))
            current
            clients
          ≡ some (last, ends))
        × (get_elem? ends k ≡ some (relay_to connects h (get_elem? services i) x.rounds x.context))
  unfolding serve_clients start set_config_values set_handler
  serve_clients-kth h services s current clients k x some_service e = (
    (thread_each (some h) current services clients).0,
    (thread_each (some h) current services clients).1,
    ap (λ (l : List T). some (thread_each (some h) current l clients))
        (add_servers-append [] services),
    thread_each-requests h services clients current k x _ e (
        requests-kth (length clients) k current services some_service (get_elem?-lt clients k x e)),
  )
