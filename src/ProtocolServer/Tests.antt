-- ===== src/ProtocolServer/Tests.antt =====
-- The theorems about the protocol server at concrete inputs.
use cpp_socket_programming.Text.{Text}
use cpp_socket_programming.Pipeline
use cpp_socket_programming.Pipeline.{sends, received}
use cpp_socket_programming.Prelude.{◌≡◌, refl, inl, true, false, [], ◌∷◌, none, some, arith}
use cpp_socket_programming.ProtocolServer.{
  opens, closes, Answers, sync_api, thread_handler, throws, set_pipeline, main, World, whole, serve,
}
use cpp_socket_programming.ProtocolServer.Start.{server}
use cpp_socket_programming.ProtocolServer.Routines.{packet, client_of, serve-packet}

abbrev good : Answers
good = record { first = some 3; second = some 4; reuses = true; binds = true; listens = true }

-- The port of the second server is taken.
abbrev taken : Answers
taken = record { first = some 5; second = some 6; reuses = true; binds = false; listens = true }

port_taken : main good taken ≡ throws (opens 3 ∷ opens 4 ∷ opens 5 ∷ opens 6 ∷ closes 6 ∷ [])
unfolding main
port_taken = refl

abbrev idle : World
idle = record { tasks_of = record { response_map = λ id. none }; pushed = [] }

serve-packet_example :
    (serve
        (λ i. 1)
        []
        (record (server 8080 sync_api 4) { routine = thread_handler })
        (client_of (packet 1 (116 ∷ 0 ∷ [])))
        (some idle)
      ≡ some (sends [] ∷ [], none))
    × ((response : Text) × (w : World) × (whole
            (λ i. 1)
            []
            sync_api
            (packet 1 (116 ∷ 0 ∷ []))
            (some idle)
          ≡ (response, some w))
        × (serve
              (λ i. 1)
              []
              (set_pipeline (server 8080 sync_api 4))
              (client_of (packet 1 (116 ∷ 0 ∷ [])))
              (some idle)
            ≡ some (sends response ∷ Pipeline.closes ∷ [], some w)))
serve-packet_example =
    serve-packet (λ i. 1) [] 1 (116 ∷ 0 ∷ []) (server 8080 sync_api 4) idle (inl refl) (omega arith)
      refl
