-- ===== src/Logger/Lost.antt =====
-- strategy/FileLogStrategy.h, lines 36 and 37: the writer of the new date takes the place of the old one.
use cpp_socket_programming.Text.{Text}
use cpp_socket_programming.Logger.{equals}
use cpp_socket_programming.Logger.Files.{
  Line, State, init, init_file_content_writer, write, do_log, line, flush_queue, flush, Event, logs,
  flushes, step, run, equals_self,
}
use cpp_socket_programming.Prelude.{
  ℕ, suc, ◌≡◌, refl, sym, ap, ◌∙◌, true, false, List, [], ◌∷◌, ◌++◌, append-nil, append_assoc, map,
}

-- The messages are logged at one date.
abbrev pub logs_on : Text → List Text → List Event
logs_on date [] = []
logs_on date (m ∷ ms) = logs date m ∷ logs_on date ms

-- Every file can be opened.
abbrev pub flushed : Event
flushed = flushes (λ i. true)

run-append : (xs ys : List Event) (s : State) → run (xs ++ ys) s ≡ run ys (run xs s)
unfolding run
run-append [] ys s = refl
run-append (x ∷ xs) ys s = run-append xs ys (step x s)

flush_queue-all :
    (date : Text) (i : ℕ) (queue : List Text)
    → flush_queue date (λ j. true) i queue ≡ map (line date) queue
unfolding flush_queue
flush_queue-all date i [] = refl
flush_queue-all date i (m ∷ queue) = ap (λ l. line date m ∷ l) (flush_queue-all date (suc i) queue)

-- A state of the date, with its queue and files.
abbrev at : Text → List Text → List Line → State
at date q fs = record { file_name = date; queue = q; files = fs }

do_log-at :
    (date m : Text) (q : List Text) (fs : List Line)
    → do_log date m (at date q fs) ≡ at date (q ++ (m ∷ [])) fs
unfolding do_log write
do_log-at date m q fs = rw (equals_self date) refl

run-logs_on :
    (date : Text) (ms q : List Text) (fs : List Line)
    → run (logs_on date ms) (at date q fs) ≡ at date (q ++ ms) fs
unfolding run step
run-logs_on date [] q fs = ap (λ l. at date l fs) (sym (append-nil q))
run-logs_on date (m ∷ ms) q fs =
    ap (run (logs_on date ms)) (do_log-at date m q fs)
    ∙ run-logs_on date ms (q ++ (m ∷ [])) fs
    ∙ ap (λ l. at date l fs) (append_assoc q (m ∷ []) ms)

run-flushed :
    (date : Text) (q : List Text) (fs : List Line) (events : List Event)
    → run (flushed ∷ events) (at date q fs) ≡ run events (at date [] (fs ++ map (line date) q))
unfolding run step flush
run-flushed date q fs events =
    ap (λ l. run events (at date [] (fs ++ l))) (flush_queue-all date 0 q)

run-next :
    (date next m : Text) (q : List Text) (fs : List Line)
    → equals date next ≡ false
    → run (logs next m ∷ flushed ∷ []) (at date q fs) ≡ at next [] (fs ++ (line next m ∷ []))
unfolding run step do_log write init_file_content_writer flush flush_queue
run-next date next m q fs h = rw h refl

-- From the start at a date, with two flushes in which every file can be opened: messages of that date
-- come, then the first flush, then messages `late` of the same date, then one of another date, and the
-- second flush. The files then hold the messages before the first flush and the one of the other date,
-- and the queue is empty: none of the messages `late` is ever written.
pub run-late :
    (date next : Text) (early late : List Text) (m : Text)
    → equals date next ≡ false
    → let events =
        logs_on date early ++ (flushed ∷ (logs_on date late ++ (logs next m ∷ flushed ∷ []))) in
      run events (init date)
      ≡ record { file_name = next; queue = []; files = map (line date) early ++ (line next m ∷ []) }
run-late date next early late m h =
    let rest = logs_on date late ++ (logs next m ∷ flushed ∷ []) in
    let written = map (line date) early in
    run-append (logs_on date early) (flushed ∷ rest) (init date)
    ∙ ap (run (flushed ∷ rest)) (run-logs_on date early [] [])
    ∙ run-flushed date early [] rest
    ∙ run-append (logs_on date late) (logs next m ∷ flushed ∷ []) (at date [] written)
    ∙ ap (run (logs next m ∷ flushed ∷ [])) (run-logs_on date late [] written)
    ∙ run-next date next m late written h
