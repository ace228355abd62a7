-- ===== src/ProtocolServer/Start.antt =====
-- Which servers run behind the start.
use cpp_socket_programming.Prelude.{
  ℕ, ◌≡◌, refl, ◌⊎◌, inl, inr, Bool, true, false, ◌&&◌, List, [], ◌∷◌, Option, none, some,
}
use cpp_socket_programming.ProtocolServer.{
  Call, opens, Answers, HandlerKind, sync_api, scheduler, protocol_pipeline, ProtocolSocket,
  Outcome, returns, throws, open_socket, construct, set_handler, set_pipeline, start, setup, main,
}

abbrev pub is_some : Option ℕ → Bool
is_some none = false
is_some (some fd) = true

-- Every call for a server succeeds.
abbrev pub is_ready : Answers → Bool
is_ready a = is_some a.first && is_some a.second && a.reuses && a.binds && a.listens

abbrev pub server : ℕ → HandlerKind → ℕ → ProtocolSocket
server port kind fd = record {
  port = port;
  descriptor = fd;
  handler = some kind;
  routine = protocol_pipeline;
}

-- A server of the kind that has opened two descriptors and listens on the second, or an exception.
abbrev pub IsStarted : ℕ → HandlerKind → Bool → Outcome ProtocolSocket → Type 0
IsStarted port kind ready o =
    ((first : ℕ) × (fd : ℕ) × (ready ≡ true)
      × (o ≡ returns (server port kind fd) (opens first ∷ opens fd ∷ [])))
    ⊎ ((calls : List Call) × (ready ≡ false) × (o ≡ throws calls))

setup-IsStarted :
    (port : ℕ) (kind : HandlerKind) (a : Answers)
    → IsStarted port kind (is_ready a) (setup port kind a)
unfolding setup construct open_socket start set_handler set_pipeline
setup-IsStarted port kind a = go a.first a.second a.reuses a.binds a.listens
  where
    go :
        (x y : Option ℕ) (r b l : Bool)
        → IsStarted port kind
            (is_some x && is_some y && r && b && l)
            (setup port kind (record { first = x; second = y; reuses = r; binds = b; listens = l }))
    go none y r b l = inr (_, refl, refl)
    go (some x) none r b l = inr (_, refl, refl)
    go (some x) (some y) false b l = inr (_, refl, refl)
    go (some x) (some y) true false l = inr (_, refl, refl)
    go (some x) (some y) true true false = inr (_, refl, refl)
    go (some x) (some y) true true true = inl (x, y, refl, refl)

-- Whatever the system calls answer: where every call succeeds the two servers run, with the handler for
-- tasks at port 8080 and the scheduler at port 8081, both behind the pipeline, each over the second
-- of two descriptors that it has opened; otherwise an exception ends the program, also where the
-- first server listens already. `main` never goes on with fewer than two servers.
main_lem :
    (a b : Answers)
    → ((first : ℕ) × (fd : ℕ) × (first' : ℕ) × (fd' : ℕ) × (is_ready a && is_ready b ≡ true)
        × (main a b
            ≡ returns
                (server 8080 sync_api fd ∷ server 8081 scheduler fd' ∷ [])
                (opens first ∷ opens fd ∷ opens first' ∷ opens fd' ∷ [])))
      ⊎ ((calls : List Call) × (is_ready a && is_ready b ≡ false) × (main a b ≡ throws calls))
unfolding main
main_lem a b = elim (setup-IsStarted 8080 sync_api a) [
  | inr (calls, off, e) ↦ inr (calls, rw off refl, rw e refl)
  | inl (first, fd, on, e) ↦ elim (setup-IsStarted 8081 scheduler b) [
    | inr (calls, off, e') ↦
        inr (opens first ∷ opens fd ∷ calls, rw (on, off) refl, rw (e, e') refl)
    | inl (first', fd', on', e') ↦ inl (first, fd, first', fd', rw (on, on') refl, rw (e, e') refl)
  ]
]
