-- ===== src/ChatClient/Sent.antt =====
-- What is sent, of what is typed.
use cpp_socket_programming.Text.{Text}
use cpp_socket_programming.Chat.{Received, end_of_stream, would_block, failed, bytes}
use cpp_socket_programming.Prelude.{
  ◌≡◌, refl, sym, ap, subst, Bool, true, false, ◌&&◌, List, [], ◌∷◌, ◌++◌, append_assoc, append-nil,
  Option, none, some, if◌then◌else◌, IsPart, skip, IsPart_self, skip_second, IsPart-append,
}
use cpp_socket_programming.ChatClient.{
  Client, Effect, sends, shows, shuts_down, is_exit, insert, input_line, Events, write_message,
  process_request, is_some, pass, Step, types, passes, step, run,
}

abbrev pub sent : List Effect → List Text
sent [] = []
sent (sends m behind ∷ effects) = m ∷ sent effects
sent (shows m ∷ effects) = sent effects
sent (shuts_down ∷ effects) = sent effects

abbrev pub all_typed : List Step → List Text
all_typed [] = []
all_typed (types input ∷ steps) = input ∷ all_typed steps
all_typed (passes ev ∷ steps) = all_typed steps

abbrev pub waiting : Option Text → List Text
waiting none = []
waiting (some m) = m ∷ []

sent-append : (xs ys : List Effect) → sent (xs ++ ys) ≡ sent xs ++ sent ys
sent-append [] ys = refl
sent-append (sends m behind ∷ xs) ys = ap (λ l. m ∷ l) (sent-append xs ys)
sent-append (shows m ∷ xs) ys = sent-append xs ys
sent-append (shuts_down ∷ xs) ys = sent-append xs ys

-- What is sent in a pass is what waited, or nothing is, and what waited still waits.
write_message-sent :
    (b : Bool) (behind : Text) (s : Client)
    → let r = write_message (is_some s.queue && b) behind s in
      sent r.1 ++ waiting r.0.queue ≡ waiting s.queue
unfolding write_message
write_message-sent b behind s = go s.queue refl b
  where
    go :
        (q : Option Text)
        → q ≡ s.queue
        → (b : Bool)
        → let r = write_message (is_some q && b) behind s in
          sent r.1 ++ waiting r.0.queue ≡ waiting s.queue
    go none e b = refl
    go (some m) e true = rw (← e) refl
    go (some m) e false = refl

pass-sent :
    (ev : Events) (s : Client)
    → let r = pass ev s in sent r.1 ++ waiting r.0.queue ≡ waiting s.queue
unfolding pass process_request
pass-sent ev s = go ev.readable
  where
    go :
        (x : Option Received)
        → let r = process_request x (is_some s.queue && ev.can_write) ev.behind s in
          sent r.1 ++ waiting r.0.queue ≡ waiting s.queue
    go none = write_message-sent ev.can_write ev.behind s
    go (some end_of_stream) = refl
    go (some would_block) = refl
    go (some failed) = write_message-sent ev.can_write ev.behind s
    go (some (bytes b)) = write_message-sent ev.can_write ev.behind s

module _ {xs : List Text} (ys : List Text) (input : Text) where
  later : (q : Option Text) → IsPart xs (waiting q ++ ys) → IsPart xs (waiting q ++ (input ∷ ys))
  later none p = skip p
  later (some m) p = skip_second m input p

  insert-IsPart :
      (q : Option Text)
      → IsPart xs (waiting (insert input q) ++ ys)
      → IsPart xs (waiting q ++ (input ∷ ys))
  insert-IsPart none p = p
  insert-IsPart (some m) p = skip_second m input p

  -- A line that is typed is queued behind nothing, or left out.
  input_line-IsPart :
      (s : Client)
      → IsPart xs (waiting (input_line input s).queue ++ ys)
      → IsPart xs (waiting s.queue ++ (input ∷ ys))
  unfolding input_line
  input_line-IsPart s = go s.listening (is_exit input)
    where
      go :
          (b e : Bool)
          → let t =
              if b
              then if e
                then record s { listening = false }
                else record s { queue = insert input s.queue }
              else s in
            IsPart xs (waiting t.queue ++ ys) → IsPart xs (waiting s.queue ++ (input ∷ ys))
      go false e p = later s.queue p
      go true true p = later s.queue p
      go true false p = insert-IsPart s.queue p

-- Whatever is typed and whatever the kernel answers: the texts sent, in their order, and then the one
-- that still waits, are the text that waited at first and then the lines that were typed, in their
-- order, with some of them left out. So no line is sent twice or before an earlier one, and no text is
-- sent that was not typed or waiting.
pub run-IsPart :
    (steps : List Step) (s : Client)
    → let r = run steps s in
      IsPart (sent r.1 ++ waiting r.0.queue) (waiting s.queue ++ all_typed steps)
unfolding run step
run-IsPart [] s =
    subst (IsPart (waiting s.queue)) (sym (append-nil (waiting s.queue)))
      (IsPart_self (waiting s.queue))
run-IsPart (types input ∷ steps) s =
    input_line-IsPart (all_typed steps) input s (run-IsPart steps (input_line input s))
run-IsPart (passes ev ∷ steps) s =
    let r = pass ev s in
    let more = run steps r.0 in
    rw
      (
        sent-append r.1 more.1,
        append_assoc (sent r.1) (sent more.1) (waiting more.0.queue),
        ← pass-sent ev s,
        append_assoc (sent r.1) (waiting r.0.queue) (all_typed steps),
      )
      (IsPart-append (sent r.1) (run-IsPart steps r.0))
