-- ===== src/SyncClient/Session.antt =====
-- The program at the server's handler, among other clients.
use cpp_socket_programming.Text.{Text, c_string}
use cpp_socket_programming.Text.Lines.{Without}
use cpp_socket_programming.Prelude.{
  ℕ, suc, ◌+◌, ◌<◌, ◌≤◌, subst, ◌≡◌, refl, sym, ap, ◌∙◌, Bool, true, false, List, [], ◌∷◌, ◌++◌,
  Option, none, some, arith, if◌then◌else◌, length, drop,
}
use cpp_socket_programming.SyncApi.Status.{
  Action, run, NoConnect, is_completed, run-found, check_status-found, checks-found,
  open_task-found,
}
use cpp_socket_programming.SyncApi.Packets.{
  read_status-answer, connect-handled, check-handled, read_id_lem, Without-uuid_rounds,
}
use cpp_socket_programming.SyncApi.{
  generate_uuid, same, Handler, response_received, open_task, completed, pending,
  make_connect_response, make_check_response, Reply, connect, check_status, handle_data,
}
use cpp_socket_programming.SyncClient.{
  connect_packet, text_at, check_status_packet, Exchange, Ended, polling, finished, after_status,
  after_check, poll, poll_with, poll_for, after_connect, main,
}

-- What happens on the server before an exchange, and the bytes that it leaves unset in its response.
pub record Round : Type 0 where
  pub acts : List Action
  pub draw : ℕ → ℕ
  pub raw : Text

abbrev pub answered : Option Reply → Option (Option Text × Handler)
answered none = none
answered (some r) = some (some r.response, r.after)

abbrev pub at_server : Round → Exchange Handler
at_server r request s = answered (handle_data r.draw r.raw request (length request) (run r.acts s))

abbrev pub all_at_server : List Round → List (Exchange Handler)
all_at_server [] = []
all_at_server (r ∷ rest) = at_server r ∷ all_at_server rest

-- The first poll, counted from `n`, before which a worker has completed the task.
abbrev pub first_done : ℕ → Text → List Round → Option ℕ
first_done n id [] = none
first_done n id (r ∷ rest) =
    let later = first_done (suc n) id rest in if is_completed id r.acts then some n else later

abbrev pub AllApart : Text → List Round → Type 0
AllApart id [] = Unit {0}
AllApart id (r ∷ rest) = NoConnect id r.acts × (length r.raw ≡ 516) × AllApart id rest

abbrev pub EndsWith : Option ℕ → Ended Handler → Type 0
EndsWith none ended = ended ≡ polling
EndsWith (some n) ended = (s : Handler) × (ended ≡ finished n s)

length-generate_uuid : (draw : ℕ → ℕ) → length (generate_uuid draw) ≡ 36
unfolding generate_uuid
length-generate_uuid draw = refl

text_at_lem :
    (n : ℕ) (response : Text)
    → n ≤ length response
    → text_at n response ≡ some (c_string (drop n response))
unfolding text_at
text_at_lem n response h = ground arith

text_at-status :
    (raw : Text) (done : Bool)
    → length raw ≡ 516
    → text_at 4 (make_check_response (if done then response_received else []) raw)
      ≡ some (if done then completed else pending)
unfolding make_check_response
text_at-status raw true size =
    text_at_lem 4 (make_check_response response_received raw) (omega arith)
    ∙ ap (λ (x : Text × Option Text). some x.0) (read_status-answer raw true size)
text_at-status raw false size =
    text_at_lem 4 (make_check_response [] raw) (omega arith)
    ∙ ap (λ (x : Text × Option Text). some x.0) (read_status-answer raw false size)

text_at-id : (id raw : Text) → Without 0 id → text_at 5 (make_connect_response id raw) ≡ some id
unfolding make_connect_response
text_at-id id raw h =
    text_at_lem 5 (make_connect_response id raw) (omega arith) ∙ ap some (read_id_lem id raw h)

packet_for : Text → Text → Text
packet_for id raw = 3 ∷ 0 ∷ 0 ∷ 0 ∷ (id ++ (0 ∷ drop (length id + 5) raw))

-- An exchange of the loop, and the handler behind it, where the task still has an entry.
check_exchange :
    (r : Round) (id raw found : Text) (s : Handler)
    → Without 0 id
    → length r.raw ≡ 516
    → NoConnect id r.acts
    → s.response_map id ≡ some found
    → let now = if is_completed id r.acts then response_received else found in
      (s' : Handler) × (s'.response_map id ≡ some now)
      × (at_server r (packet_for id raw) s ≡ some (some (make_check_response now r.raw), s'))
unfolding packet_for check_status
check_exchange r id raw found s plain size apart e =
    let before = run r.acts s in
    let kept = run-found id found r.acts s apart e in
    let now = if is_completed id r.acts then response_received else found in
    (
      (check_status id r.raw before).after,
      checks-found id id now before kept,
      ap answered (check-handled r.draw r.raw id (drop (length id + 5) raw) before plain)
          ∙ ap (λ (t : Text). some (some t, (check_status id r.raw before).after))
              (check_status-found id now r.raw before kept),
    )

after_status_lem :
    (n : ℕ) (done : Bool) (s : Handler) (more : Ended Handler)
    → after_status n (some (if done then completed else pending)) s more
      ≡ (if done then finished n s else more)
unfolding after_status same
after_status_lem n true s more = refl
after_status_lem n false s more = refl

pending_entry :
    (done : Bool)
    → done ≡ false
    → ◌≡◌ {A = Option Text} (some (if done then response_received else [])) (some [])
pending_entry done e = rw e

EndsWith-if :
    (done : Bool) (n : ℕ) (later : Option ℕ) (s : Handler) (more : Ended Handler)
    → (done ≡ false → EndsWith later more)
    → EndsWith (if done then some n else later) (if done then finished n s else more)
EndsWith-if true n later s more h = (s, refl)
EndsWith-if false n later s more h = h refl

poll_first :
    (rounds : List Round) (n : ℕ) (id raw : Text) (s : Handler)
    → Without 0 id
    → AllApart id rounds
    → s.response_map id ≡ some []
    → EndsWith (first_done n id rounds) (poll n (packet_for id raw) (all_at_server rounds) s)
unfolding poll
poll_first [] n id raw s plain apart e = refl
poll_first (r ∷ rest) n id raw s plain apart e =
    let (s', kept, told) = check_exchange r id raw [] s plain apart.1 apart.0 e in
    let done = is_completed id r.acts in
    let packet = packet_for id raw in
    let more = poll (suc n) packet (all_at_server rest) s' in
    let path : poll n packet (at_server r ∷ all_at_server rest) s
        ≡ (if done then finished n s' else more) =
      ap (λ o. after_check n o (poll (suc n) packet (all_at_server rest))) told
      ∙ ap (λ o. after_status n o s' more) (text_at-status r.raw done apart.1)
      ∙ after_status_lem n done s' more in
    subst (EndsWith (first_done n id (r ∷ rest))) (sym path) (
      EndsWith-if done n (first_done (suc n) id rest) s' more
        (λ off. poll_first rest (suc n) id raw s' plain apart.2 (kept ∙ pending_entry done off)))

connect_exchange :
    (r : Round) (pad : ℕ) (s : Handler)
    → let id = generate_uuid r.draw in
      at_server r (connect_packet pad) s
      ≡ some (some (make_connect_response id r.raw), open_task id (run r.acts s))
unfolding connect_packet connect
connect_exchange r pad s =
    ap answered (connect-handled r.draw r.raw (drop 4 (connect_packet pad)) (run r.acts s))

-- The program at a server that runs and is reached, whose draws for the id are below 16, where each
-- response leaves 516 bytes for its fields and nobody else is given the same id: it ends, and only then,
-- at the first poll before which a worker has completed its task, whatever other clients do; it never
-- reads past a response, and the id fits its field.
pub main-first_done :
    (pad : ℕ) (raw : Text) (first : Round) (rounds : List Round) (s : Handler)
    → ((k : ℕ) → first.draw k < 16)
    → AllApart (generate_uuid first.draw) rounds
    → EndsWith
        (first_done 1 (generate_uuid first.draw) rounds)
        (main pad raw (at_server first) (all_at_server rounds) s)
unfolding main check_status_packet
main-first_done pad raw first rounds s lt apart =
    let id = generate_uuid first.draw in
    let plain : Without 0 id = unfold generate_uuid in Without-uuid_rounds 16 0 first.draw lt in
    let before = run first.acts s in
    let open_ = open_task id before in
    let packet = packet_for id raw in
    let fits : check_status_packet id raw ≡ some packet =
      unfold packet_for in ground (arith, length-generate_uuid first.draw) in
    let path : main pad raw (at_server first) (all_at_server rounds) s
        ≡ poll 1 packet (all_at_server rounds) open_ =
      ap (λ o. after_connect raw o (all_at_server rounds)) (connect_exchange first pad s)
      ∙ ap (λ o. poll_for raw o (all_at_server rounds) open_) (text_at-id id first.raw plain)
      ∙ ap (λ o. poll_with o (all_at_server rounds) open_) fits in
    subst (EndsWith (first_done 1 id rounds)) (sym path)
      (poll_first rounds 1 id raw open_ plain apart (open_task-found id before))
