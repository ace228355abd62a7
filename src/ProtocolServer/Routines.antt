-- ===== src/ProtocolServer/Routines.antt =====
-- The handler for tasks behind each of the two routines.
use cpp_socket_programming.Text.{Text, c_string}
use cpp_socket_programming.SyncApi.{
  Reply, generate_uuid, handle_data, packet_text, connect, check_status,
}
use cpp_socket_programming.Pipeline.{received, sends, closes, read_request, respond, pipeline}
use cpp_socket_programming.Prelude.{
  ℕ, suc, ◌<◌, ◌≡◌, refl, ap, ◌⊎◌, inl, inr, true, false, [], ◌∷◌, none, some, arith, ltb, ◌==◌,
  if◌then◌else◌, length, take,
}
use cpp_socket_programming.ProtocolServer.{
  ProtocolSocket, thread_handler, Client, serve, set_pipeline, handler_of, sync_api, World,
  handle_in, handle, handler_loop, thread_handle, whole, settle,
}

take-length : (xs : Text) → take (length xs) xs ≡ xs
take-length [] = refl
take-length (x ∷ xs) = ap (λ l. x ∷ l) (take-length xs)

packet_long : (n : ℕ) → ltb (suc (suc (suc (suc n)))) 4 ≡ false
packet_long n = ground arith

packet_fits : (n : ℕ) → n < 31996 → ltb (suc (suc (suc (suc n)))) 32000 ≡ true
packet_fits n h = ground arith

-- A packet of a type, with a text behind it.
abbrev pub packet : ℕ → Text → Text
packet t text = t ∷ 0 ∷ 0 ∷ 0 ∷ text

-- A client that sends this in one piece, and nothing more.
abbrev pub client_of : Text → Client
client_of request = record {
  polls = received request ∷ received [] ∷ [];
  reads = request ∷ [] ∷ [];
}

module _ (draw : ℕ → ℕ) (raw : Text) where
  cut_packet :
      (t : ℕ) (text : Text) (w : World)
      → (t ≡ 1) ⊎ (t ≡ 3)
      → handle draw raw sync_api (t ∷ []) (suc (length (0 ∷ 0 ∷ 0 ∷ text))) (some w) ≡ ([], none)
  unfolding handle handle_in handle_data packet_text
  cut_packet t text w (inl e) = rw e refl
  cut_packet t text w (inr e) = rw e refl

  answer_to : ℕ → Text → World → Reply
  answer_to t text w =
      if t == 1
      then connect (generate_uuid draw) raw w.tasks_of
      else check_status (c_string text) raw w.tasks_of

  whole-packet :
      (t : ℕ) (text : Text) (w : World)
      → (t ≡ 1) ⊎ (t ≡ 3)
      → whole draw raw sync_api (packet t text) (some w) ≡ settle w (some (answer_to t text w))
  unfolding handle handle_in handle_data packet_text answer_to
  whole-packet t text w (inl e) = rw (e, take-length text, packet_long (length text)) refl
  whole-packet t text w (inr e) = rw (e, take-length text, packet_long (length text)) refl

  c_string-packet :
      (t : ℕ) (text : Text) → (t ≡ 1) ⊎ (t ≡ 3) → c_string (t ∷ 0 ∷ 0 ∷ 0 ∷ text) ≡ t ∷ []
  unfolding c_string
  c_string-packet t text (inl e) = rw e refl
  c_string-packet t text (inr e) = rw e refl

  -- A packet of type CONNECT or CHECK_STATUS with a text of less than 31996 bytes, sent in one piece by
  -- a client that then ends, at a server with the handler for tasks. The routine that a server has
  -- without SetPipeline hands over the C string of the packet, which is its first byte, and the
  -- handler reads past its end. Behind the pipeline the handler gets the whole packet, its response
  -- is sent, and the socket is closed.
  pub serve-packet :
      (t : ℕ) (text : Text) (s : ProtocolSocket) (w : World)
      → (t ≡ 1) ⊎ (t ≡ 3)
      → length text < 31996
      → s.handler ≡ some sync_api
      → let request = packet t text in
        (serve draw raw (record s { routine = thread_handler }) (client_of request) (some w)
          ≡ some (sends [] ∷ [], none))
        × ((response : Text) × (w' : World) × (whole draw raw sync_api request (some w)
              ≡ (response, some w'))
            × (serve draw raw (set_pipeline s) (client_of request) (some w)
                ≡ some (sends response ∷ closes ∷ [], some w')))
  unfolding serve thread_handle handler_loop set_pipeline handler_of pipeline read_request respond
  serve-packet t text s w kind small e =
      let answered = whole-packet t text w kind in
      (
        rw
            (
              e,
              c_string-packet t text kind,
              cut_packet t text w kind,
              packet_fits (length text) small,
            )
            refl,
        ((answer_to t text w).response, _, answered, rw (e, answered) refl),
      )
