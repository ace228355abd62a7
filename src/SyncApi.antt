-- ===== src/SyncApi.antt =====
-- protocol-server/src/handler/SyncApiProtocolHandler.cpp with payload/Payload.h and
-- utils/uuid/UuidGenerator.h: a client connects and is given the id of a task, and asks for the
-- task's status until a worker of the pool has completed it. Packets are bytes, little-endian; the
-- fields of a response that the code leaves as they are come from the argument `raw`. The draws of
-- the random number generator are a function. `none` is a read past the end of the request.
pub mod Status
pub mod Packets
mod Tests
use cpp_socket_programming.Text.{Text, c_string}
use cpp_socket_programming.Prelude.{
  ℕ, zero, suc, ◌+◌, ◌*◌, Bool, true, false, ◌&&◌, ◌||◌, List, [], ◌∷◌, ◌++◌, Option, none, some,
  ◌==◌, ltb, if◌then◌else◌, length, get_or, take, drop,
}

-- "0123456789abcdef"
abbrev pub hex_digits : Text
hex_digits = 48 ∷ 49 ∷ 50 ∷ 51 ∷ 52 ∷ 53 ∷ 54 ∷ 55 ∷ 56 ∷ 57 ∷ 97 ∷ 98 ∷ 99 ∷ 100 ∷ 101 ∷ 102 ∷ []

-- The dash in front of the two digits of round `i`.
abbrev pub dash : ℕ → Text
dash i = if i == 4 || i == 6 || i == 8 || i == 10 then b'-' ∷ [] else []

-- `generateUuid`, from round `i` on.
unfoldable pub uuid_rounds : ℕ → ℕ → (ℕ → ℕ) → Text
uuid_rounds zero i draw = []
uuid_rounds (suc n) i draw =
    dash i
    ++ get_or hex_digits (draw (2 * i)) 0
      ∷ get_or hex_digits (draw (2 * i + 1)) 0
      ∷ uuid_rounds n (suc i) draw

unfoldable pub generate_uuid : (ℕ → ℕ) → Text
unfolding uuid_rounds
generate_uuid draw = uuid_rounds 16 0 draw

unfoldable pub same : Text → Text → Bool
same [] [] = true
same [] (d ∷ ds) = false
same (c ∷ cs) [] = false
same (c ∷ cs) (d ∷ ds) = c == d && same cs ds

pub record Handler : Type 0 where
  pub response_map : Text → Option Text

-- `response_map[id] = response`.
unfoldable pub assign : Text → Text → Handler → Handler
assign id response s = record {
  response_map = λ x. if same id x then some response else s.response_map x;
}

-- "Response Received"
abbrev pub response_received : Text
response_received =
    82 ∷ 101 ∷ 115 ∷ 112 ∷ 111 ∷ 110 ∷ 115 ∷ 101 ∷ 32 ∷ 82 ∷ 101 ∷ 99 ∷ 101 ∷ 105 ∷ 118 ∷ 101 ∷ 100
    ∷ []

-- The task that a CONNECT packet gives to the thread pool.
unfoldable pub complete_task : Text → Handler → Handler
complete_task id s = assign id response_received s

-- What a CONNECT packet does to the map.
unfoldable pub open_task : Text → Handler → Handler
open_task id s = assign id [] s

-- `response_map[id]`, which makes an empty entry where there is none.
unfoldable pub look_up : Text → Handler → Text × Handler
look_up id s = elim (s.response_map id) [ none ↦ ([], assign id [] s) | some r ↦ (r, s) ]

-- "pending" and "completed"
abbrev pub pending : Text
pending = 112 ∷ 101 ∷ 110 ∷ 100 ∷ 105 ∷ 110 ∷ 103 ∷ []

abbrev pub completed : Text
completed = 99 ∷ 111 ∷ 109 ∷ 112 ∷ 108 ∷ 101 ∷ 116 ∷ 101 ∷ 100 ∷ []

-- `MakeConnectResponse`: 4 bytes of type, the flag, and the id in 255 bytes.
unfoldable pub make_connect_response : Text → Text → Text
make_connect_response id raw = (2 ∷ 0 ∷ 0 ∷ 0 ∷ b'1' ∷ id) ++ 0 ∷ drop (length id + 6) raw

-- The response to CHECK_STATUS: 4 bytes of type, the status and the response in 255 bytes each, and
-- 2 bytes of padding.
unfoldable pub make_check_response : Text → Text → Text
make_check_response [] raw = (4 ∷ 0 ∷ 0 ∷ 0 ∷ pending) ++ 0 ∷ drop 12 raw
make_check_response (c ∷ cs) raw =
    let field : Text = (c ∷ cs) ++ (0 ∷ drop (260 + length (c ∷ cs)) raw) in
    (4 ∷ 0 ∷ 0 ∷ 0 ∷ completed) ++ (0 ∷ (take 245 (drop 14 raw) ++ field))

-- What a call answers, the handler that it leaves, and the ids of the tasks that it has pushed.
pub record Reply : Type 0 where
  pub response : Text
  pub after : Handler
  pub pushed : List Text

-- "HTTP/1.1 200 OK\r\n"
abbrev pub default_response : Text
default_response =
    72 ∷ 84 ∷ 84 ∷ 80 ∷ 47 ∷ 49 ∷ 46 ∷ 49 ∷ 32 ∷ 50 ∷ 48 ∷ 48 ∷ 32 ∷ 79 ∷ 75 ∷ 13 ∷ 10 ∷ []

unfoldable pub connect : Text → Text → Handler → Reply
unfolding make_connect_response open_task
connect id raw s = record {
  response = make_connect_response id raw;
  after = open_task id s;
  pushed = id ∷ [];
}

unfoldable pub check_status : Text → Text → Handler → Reply
unfolding make_check_response look_up
check_status id raw s =
    let (found, t) = look_up id s in
    record { response = make_check_response found raw; after = t; pushed = [] }

-- The text in a packet behind its 4 bytes of type; a shorter packet is read past its end.
unfoldable pub packet_text : Text → Option Text
unfolding c_string
packet_text request = if ltb (length request) 4 then none else some (c_string (drop 4 request))

abbrev pub with_text : Option Text → (Text → Reply) → Option Reply
with_text none f = none
with_text (some t) f = some (f t)

-- The first byte of the packet; an empty text has its NUL there.
abbrev pub packet_type : Text → ℕ
packet_type request = get_or request 0 0

-- `HandleData`.
unfoldable pub handle_data : (ℕ → ℕ) → Text → Text → ℕ → Handler → Option Reply
unfolding generate_uuid connect check_status packet_text
handle_data draw raw buffer buffer_length s =
    let request = take buffer_length buffer in
    if packet_type request == 1
    then with_text (packet_text request) (λ action. connect (generate_uuid draw) raw s)
    else if packet_type request == 3
    then with_text (packet_text request) (λ id. check_status id raw s)
    else some (record { response = default_response; after = s; pushed = [] })
