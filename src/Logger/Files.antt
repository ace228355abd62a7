-- ===== src/Logger/Files.antt =====
-- strategy/FileLogStrategy.h with content-writer/FileContentWriter.h and the `Flush` of
-- BaseContentWriter.h: a file for each date. The date of a call is an argument, and so is whether a file
-- can be opened.
use cpp_socket_programming.Text.{Text}
use cpp_socket_programming.Logger.{equals}
use cpp_socket_programming.Prelude.{
  ℕ, suc, ◌≡◌, refl, sym, ap, subst, Bool, true, Bool-cases, inl, inr, List, [], ◌∷◌, ◌++◌,
  append-nil, append_assoc, if◌then◌else◌, map, IsPart, nil, keep, skip, IsPart-append, IsPart_none,
  IsPart-trans, append-IsPart, arith,
}

-- The date of a file, and a piece of its text.
abbrev pub Line : Type 0
Line = Text × Text

-- The date of the writer, its queue, and what the files hold, in the order of the writes.
pub record State : Type 0 where
  pub file_name : Text
  pub queue : List Text
  pub files : List Line

-- The constructor.
abbrev pub init : Text → State
init date = record { file_name = date; queue = []; files = [] }

-- `initFileContentWriter`: a new writer with an empty queue.
unfoldable pub init_file_content_writer : Text → State → State
init_file_content_writer date s = record s { file_name = date; queue = [] }

-- `Write`.
unfoldable pub write : Text → State → State
write m s = record s { queue = s.queue ++ (m ∷ []) }

-- `DoLog`, at a date, which is the same in both readings of the clock.
unfoldable pub do_log : Text → Text → State → State
unfolding init_file_content_writer write
do_log date m s = write m (if equals s.file_name date then s else init_file_content_writer date s)

-- The content, "\r\n" behind it, and the file that it goes to.
abbrev pub line : Text → Text → Line
line date content = (date, content ++ (13 ∷ 10 ∷ []))

-- `Flush`, with `WriteToMedia` on each content: the flag tells whether the file can be opened.
unfoldable pub flush_queue : Text → (ℕ → Bool) → ℕ → List Text → List Line
flush_queue date opens i [] = []
flush_queue date opens i (m ∷ queue) =
    let rest = flush_queue date opens (suc i) queue in if opens i then line date m ∷ rest else rest

unfoldable pub flush : (ℕ → Bool) → State → State
unfolding flush_queue
flush opens s = record s { queue = []; files = s.files ++ flush_queue s.file_name opens 0 s.queue }

pub data Event : Type 0 where
  logs : Text → Text → Event
  flushes : (ℕ → Bool) → Event

unfoldable pub step : Event → State → State
unfolding do_log flush
step (logs date m) s = do_log date m s
step (flushes opens) s = flush opens s

unfoldable pub run : List Event → State → State
unfolding step
run [] s = s
run (e ∷ events) s = run events (step e s)

-- What has been logged, each for the file of its date.
abbrev pub logged : List Event → List Line
logged [] = []
logged (logs date m ∷ events) = line date m ∷ logged events
logged (flushes opens ∷ events) = logged events

abbrev pub waiting : State → List Line
waiting s = map (line s.file_name) s.queue

equals_eq : (s t : Text) → equals s t ≡ true → s ≡ t
equals_eq [] [] h = refl
equals_eq [] (d ∷ t) h = absurd cc
equals_eq (c ∷ s) [] h = absurd cc
equals_eq (c ∷ s) (d ∷ t) h =
    let first : c ≡ d = ground arith in let rest = equals_eq s t (ground arith) in cc

pub equals_self : (s : Text) → equals s s ≡ true
equals_self [] = refl
equals_self (c ∷ s) = ground (arith, equals_self s)

flush_queue-IsPart :
    (date : Text) (opens : ℕ → Bool) (i : ℕ) (queue : List Text)
    → IsPart (flush_queue date opens i queue) (map (line date) queue)
unfolding flush_queue
flush_queue-IsPart date opens i [] = nil
flush_queue-IsPart date opens i (m ∷ queue) =
    let rest = flush_queue-IsPart date opens (suc i) queue in
    elim (Bool-cases (opens i)) [ inl on ↦ rw on (keep rest) | inr off ↦ rw off (skip rest) ]

map-append : (f : Text → Line) (xs ys : List Text) → map f (xs ++ ys) ≡ map f xs ++ map f ys
map-append f [] ys = refl
map-append f (x ∷ xs) ys = ap (λ l. f x ∷ l) (map-append f xs ys)

IsPart_front : (xs ys : List Line) → IsPart xs (xs ++ ys)
IsPart_front xs ys =
    subst (λ (l : List Line). IsPart l (xs ++ ys)) (append-nil xs)
      (IsPart-append xs (IsPart_none ys))

-- What is in the files or waits is a part of what has been logged.
module _ (s : State) (so_far : List Line) (h : IsPart (s.files ++ waiting s) so_far) where
  do_log-IsPart :
      (date m : Text)
      → let t = do_log date m s in IsPart (t.files ++ waiting t) (so_far ++ (line date m ∷ []))
  unfolding do_log write init_file_content_writer
  do_log-IsPart date m = elim (Bool-cases (equals s.file_name date)) [
    | inl on ↦
        let same = equals_eq s.file_name date on in
        rw (on, ← same, map-append (line s.file_name) s.queue (m ∷ []))
          (subst (λ (l : List Line). IsPart l (so_far ++ (line s.file_name m ∷ [])))
            (append_assoc s.files (waiting s) (line s.file_name m ∷ []))
            (append-IsPart (line s.file_name m ∷ []) h))
    | inr off ↦
        rw off
          (append-IsPart (line date m ∷ []) (IsPart-trans h (IsPart_front s.files (waiting s))))
  ]

  flush-IsPart : (opens : ℕ → Bool) → let t = flush opens s in IsPart (t.files ++ waiting t) so_far
  unfolding flush
  flush-IsPart opens =
      let written = s.files ++ flush_queue s.file_name opens 0 s.queue in
      subst (λ (l : List Line). IsPart l so_far) (sym (append-nil written))
        (IsPart-trans h (IsPart-append s.files (flush_queue-IsPart s.file_name opens 0 s.queue)))

run-IsPart_from :
    (events : List Event) (s : State) (so_far : List Line)
    → IsPart (s.files ++ waiting s) so_far
    → let t = run events s in IsPart (t.files ++ waiting t) (so_far ++ logged events)
unfolding run step
run-IsPart_from [] s so_far h = subst (IsPart (s.files ++ waiting s)) (sym (append-nil so_far)) h
run-IsPart_from (logs date m ∷ events) s so_far h =
    let t = run events (do_log date m s) in
    subst (IsPart (t.files ++ waiting t)) (append_assoc so_far (line date m ∷ []) (logged events)) (
      run-IsPart_from events (do_log date m s) (so_far ++ (line date m ∷ []))
        (do_log-IsPart s so_far h date m))
run-IsPart_from (flushes opens ∷ events) s so_far h =
    run-IsPart_from events (flush opens s) so_far (flush-IsPart s so_far h opens)

-- Whatever is logged at whatever dates, whenever the queue is flushed and whichever files can be opened:
-- what the files hold, in the order of the writes, and then what waits in the queue, is a part of what
-- was logged, in its order and with each line in the file of its date. So nothing is invented or written
-- twice, out of order, or into the file of another day.
pub run-files :
    (date : Text) (events : List Event)
    → let s = run events (init date) in IsPart (s.files ++ waiting s) (logged events)
run-files date events = run-IsPart_from events (init date) [] nil
