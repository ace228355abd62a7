-- ===== src/SyncApi/Packets.antt =====
-- What a client reads from the bytes of the responses.
use cpp_socket_programming.Text.{Text, c_string}
use cpp_socket_programming.Text.Lines.{Without}
use cpp_socket_programming.Prelude.{
  ℕ, zero, suc, ◌+◌, ◌<◌, ◌≡◌, refl, ap, ◌∙◌, ◌≢◌, Bool, true, false, List, [], ◌∷◌, ◌++◌, Option,
  none, some, arith, if◌then◌else◌, length, get_or, take, drop,
}
use cpp_socket_programming.SyncApi.Status.{
  Action, run, NoConnect, is_completed, run-found, check_status-found, open_task-found,
}
use cpp_socket_programming.SyncApi.{
  hex_digits, dash, uuid_rounds, generate_uuid, same, Handler, response_received, open_task,
  completed, pending, make_connect_response, make_check_response, Reply, connect, check_status,
  packet_text, handle_data,
}

get_or-Without : (l : Text) (d : ℕ) → Without 0 l → d < length l → get_or l d 0 ≢ 0
get_or-Without [] d h lt = absurd (omega arith)
get_or-Without (c ∷ l) zero h lt = h.0
get_or-Without (c ∷ l) (suc d) h lt = get_or-Without l d h.1 (omega arith)

hex_digit-nonzero : (d : ℕ) → d < 16 → get_or hex_digits d 0 ≢ 0
hex_digit-nonzero d lt = get_or-Without hex_digits d (omega arith) lt

Without-after_dash : (i : ℕ) (t : Text) → Without 0 t → Without 0 (dash i ++ t)
Without-after_dash i t h = ground arith

pub Without-uuid_rounds :
    (n i : ℕ) (draw : ℕ → ℕ) → ((k : ℕ) → draw k < 16) → Without 0 (uuid_rounds n i draw)
unfolding uuid_rounds
Without-uuid_rounds zero i draw lt = tt
Without-uuid_rounds (suc n) i draw lt = Without-after_dash i _ (
  hex_digit-nonzero _ (lt _),
  (hex_digit-nonzero _ (lt _), Without-uuid_rounds n (suc i) draw lt),
)

c_string-append : (s t : Text) → Without 0 s → c_string (s ++ 0 ∷ t) ≡ s
unfolding c_string
c_string-append [] t h = refl
c_string-append (c ∷ s) t h = ground (arith, c_string-append s t)

take-length : (s : Text) → take (length s) s ≡ s
take-length [] = refl
take-length (c ∷ s) = ap (λ l. c ∷ l) (take-length s)

drop-append : (n : ℕ) (s t : Text) → length s ≡ n → drop n (s ++ t) ≡ t
drop-append zero [] t e = refl
drop-append zero (c ∷ s) t e = absurd (omega arith)
drop-append (suc n) [] t e = absurd (omega arith)
drop-append (suc n) (c ∷ s) t e = drop-append n s t (omega arith)

length-take-drop : (m n : ℕ) (s : Text) → m + n < length s → length (take n (drop m s)) ≡ n
length-take-drop m zero s lt = omega arith
length-take-drop zero (suc n) [] lt = absurd (omega arith)
length-take-drop zero (suc n) (c ∷ s) lt = omega (arith, length-take-drop 0 n s)
length-take-drop (suc m) (suc n) [] lt = absurd (omega arith)
length-take-drop (suc m) (suc n) (c ∷ s) lt = length-take-drop m (suc n) s (omega arith)

-- The id that a client reads from the response to CONNECT.
abbrev pub read_id : Text → Text
read_id response = c_string (drop 5 response)

-- The status that a client reads from the response to CHECK_STATUS, and the response behind it.
abbrev pub read_status : Text → Text × Option Text
read_status response =
    let status = c_string (drop 4 response) in
    (status, if same status completed then some (c_string (drop 259 response)) else none)

pub read_id_lem : (id raw : Text) → Without 0 id → read_id (make_connect_response id raw) ≡ id
unfolding make_connect_response
read_id_lem id raw h = c_string-append id (drop (length id + 6) raw) h

read_status-pending : (raw : Text) → read_status (make_check_response [] raw) ≡ (pending, none)
unfolding make_check_response c_string same
read_status-pending raw = refl

read_status-completed :
    (c : ℕ) (cs raw : Text)
    → Without 0 (c ∷ cs)
    → length raw ≡ 516
    → read_status (make_check_response (c ∷ cs) raw) ≡ (completed, some (c ∷ cs))
unfolding make_check_response c_string same
read_status-completed c cs raw plain size =
    let after : Text = (c ∷ cs) ++ 0 ∷ drop (260 + length (c ∷ cs)) raw in
    ap (λ (t : Text). (completed, some t))
      (ap c_string (
          drop-append 245 (take 245 (drop 14 raw)) after
            (length-take-drop 14 245 raw (omega arith)))
        ∙ c_string-append (c ∷ cs) (drop (260 + length (c ∷ cs)) raw) plain)

packet_text_lem :
    (a b c d : ℕ) (id pad : Text)
    → Without 0 id
    → packet_text (a ∷ b ∷ c ∷ d ∷ id ++ 0 ∷ pad) ≡ some id
unfolding packet_text
packet_text_lem a b c d id pad h = ground (arith, c_string-append id pad h)

pub read_status-answer :
    (raw : Text) (done : Bool)
    → length raw ≡ 516
    → read_status (make_check_response (if done then response_received else []) raw)
      ≡ (if done then (completed, some response_received) else (pending, none))
read_status-answer raw true size = read_status-completed _ _ raw (omega arith) size
read_status-answer raw false size = read_status-pending raw

pub connect-handled :
    (draw : ℕ → ℕ) (raw action : Text) (s : Handler)
    → let first = 1 ∷ 0 ∷ 0 ∷ 0 ∷ action in
      handle_data draw raw first (length first) s ≡ some (connect (generate_uuid draw) raw s)
unfolding handle_data packet_text
connect-handled draw raw action s = rw (take-length action) (ground arith)

pub check-handled :
    (draw : ℕ → ℕ) (raw id pad : Text) (s : Handler)
    → Without 0 id
    → let second = 3 ∷ 0 ∷ 0 ∷ 0 ∷ id ++ 0 ∷ pad in
      handle_data draw raw second (length second) s ≡ some (check_status id raw s)
unfolding handle_data
check-handled draw raw id pad s plain =
    rw (take-length (id ++ 0 ∷ pad), packet_text_lem 3 0 0 0 id pad plain)

-- A client connects, and other clients connect, ask and are served before it asks for its task. It
-- reads the id of the task that was pushed from the first response; what it reads from the second is
-- `pending`, or `completed` with the task's response if the task has been completed meanwhile.
pub handle_data-handle_data :
    (draw draw' : ℕ → ℕ) (raw raw' action pad : Text) (acts : List Action) (s : Handler)
    → ((k : ℕ) → draw k < 16)
    → length raw' ≡ 516
    → NoConnect (generate_uuid draw) acts
    → let id = generate_uuid draw in
      let first = 1 ∷ 0 ∷ 0 ∷ 0 ∷ action in
      let second = 3 ∷ 0 ∷ 0 ∷ 0 ∷ id ++ 0 ∷ pad in
      (r q : Reply) × (handle_data draw raw first (length first) s ≡ some r)
      × (read_id r.response ≡ id)
      × (r.pushed ≡ id ∷ [])
      × (handle_data draw' raw' second (length second) (run acts r.after) ≡ some q)
      × (read_status q.response
          ≡ (if is_completed id acts then (completed, some response_received) else (pending, none)))
unfolding connect make_connect_response
handle_data-handle_data draw draw' raw raw' action pad acts s lt size apart =
    let id = generate_uuid draw in
    let plain : Without 0 id = unfold generate_uuid in Without-uuid_rounds 16 0 draw lt in
    let found = run-found id [] acts (open_task id s) apart (open_task-found id s) in
    (
      connect id raw s,
      check_status id raw' (run acts (open_task id s)),
      connect-handled draw raw action s,
      read_id_lem id raw plain,
      refl,
      check-handled draw' raw' id pad _ plain,
      ap read_status (check_status-found id _ raw' _ found)
          ∙ read_status-answer raw' (is_completed id acts) size,
    )
