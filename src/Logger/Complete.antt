-- ===== src/Logger/Complete.antt =====
-- Which messages are handed to the medium.
use cpp_socket_programming.Prelude.{
  Bool, ◌≡◌, refl, sym, ap, ◌∙◌, ◌≢◌, true, false, List, [], ◌∷◌, ◌++◌, append-nil, append_assoc,
  Option, none, some, Option-cases, inl, inr, subst, if◌then◌else◌,
}
use cpp_socket_programming.Text.{Text}
use cpp_socket_programming.Logger.Files.{equals_self}
use cpp_socket_programming.Logger.{
  equals, queue_on, Strategy, null_log, db_log, file_log, net_log, message, State, init, do_log,
  flush_queue, flush, wake, log_worker, Event, logs, works, stops, log_with, step, and_then, run,
}

-- The messages of the calls of `Log`, where none has an index out of range and the destructor has not
-- begun.
abbrev pub with_message : Option Text → Option (List Text) → Option (List Text)
with_message none more = none
with_message (some m) none = none
with_message (some m) (some more) = some (m ∷ more)

abbrev pub messages : Strategy → List Event → Option (List Text)
messages strategy [] = some []
messages strategy (logs date app key cause ∷ events) =
    with_message (message strategy app key cause) (messages strategy events)
messages strategy (works ∷ events) = messages strategy events
messages strategy (stops ∷ events) = none

flush_queue-append : (media queue : List Text) → flush_queue media queue ≡ media ++ queue
flush_queue-append media [] = sym (append-nil media)
flush_queue-append media (m ∷ queue) =
    flush_queue-append (media ++ m ∷ []) queue ∙ append_assoc media (m ∷ []) queue

-- All calls of `Log` are at one date.
abbrev pub AllOn : Text → List Event → Type 0
AllOn date [] = Unit {0}
AllOn date (logs d app key cause ∷ events) = (d ≡ date) × AllOn date events
AllOn date (works ∷ events) = AllOn date events
AllOn date (stops ∷ events) = AllOn date events

-- While the logger lives: what has been logged is handed over or waits, the null strategy queues nothing,
-- and the writer is that of the date.
record IsLive (date : Text) (strategy : Strategy) (logged : List Text) (s : State) : Type 0 where
  pub on_date : s.file_name ≡ date
  pub kept : s.media ++ s.queue ≡ logged
  pub direct : strategy ≡ null_log → s.queue ≡ []
  pub going : s.stop_thread ≡ false
  pub not_ended : s.ended ≡ false

queue_message :
    (date : Text) (strategy : Strategy) (logged : List Text) (m : Text) (s : State)
    → strategy ≢ null_log
    → IsLive date strategy logged s
    → IsLive date strategy (logged ++ m ∷ []) (record s { queue = s.queue ++ m ∷ [] })
queue_message date strategy logged m s h v = record {
  on_date = v.on_date;
  kept = sym (append_assoc s.media s.queue (m ∷ [])) ∙ ap (λ l. l ++ m ∷ []) v.kept;
  direct = λ e. absurd (h e);
  going = v.going;
  not_ended = v.not_ended;
}

queue_same :
    (date d m : Text) (s : State)
    → s.file_name ≡ date
    → d ≡ date
    → queue_on (equals s.file_name d) s.queue m ≡ s.queue ++ m ∷ []
queue_same date d m s e h =
    ap (λ (b : Bool). queue_on b s.queue m)
      (ap (λ k. equals s.file_name k) (h ∙ sym e) ∙ equals_self s.file_name)

do_log-IsLive :
    (date d : Text) (strategy : Strategy) (logged : List Text) (m : Text) (s : State)
    → (strategy ≡ file_log → d ≡ date)
    → IsLive date strategy logged s
    → IsLive date strategy (logged ++ m ∷ []) (do_log strategy d m s)
unfolding do_log
do_log-IsLive date d null_log logged m s h v =
    let empty = v.direct refl in
    record {
      on_date = v.on_date;
      kept =
          ap (λ q. (s.media ++ m ∷ []) ++ q) empty
          ∙ append-nil (s.media ++ m ∷ [])
          ∙ ap (λ l. l ++ m ∷ [])
              (sym (append-nil s.media) ∙ ap (λ q. s.media ++ q) (sym empty) ∙ v.kept);
      direct = v.direct;
      going = v.going;
      not_ended = v.not_ended;
    }
do_log-IsLive date d db_log logged m s h v = queue_message date db_log logged m s (λ e. cc) v
do_log-IsLive date d file_log logged m s h v = record {
  on_date = h refl;
  kept =
      ap (λ l. s.media ++ l) (queue_same date d m s v.on_date (h refl))
      ∙ sym (append_assoc s.media s.queue (m ∷ []))
      ∙ ap (λ l. l ++ m ∷ []) v.kept;
  direct = λ e. cc;
  going = v.going;
  not_ended = v.not_ended;
}
do_log-IsLive date d net_log logged m s h v = queue_message date net_log logged m s (λ e. cc) v

worker_wake :
    (s : State) (queue : List Text)
    → s.ended ≡ false
    → s.queue ≡ queue
    → log_worker s ≡ wake queue s
unfolding log_worker
worker_wake s queue e e' = ap (λ b. if b then s else wake s.queue s) e ∙ ap (λ q. wake q s) e'

still : (s : State) → s.ended ≡ true → log_worker s ≡ s
unfolding log_worker
still s e = ap (λ b. if b then s else wake s.queue s) e

wake_stay : (s : State) → s.stop_thread ≡ false → wake [] s ≡ s
wake_stay s e = ap (λ b. if b then record s { ended = true } else s) e

module _ (date : Text) (strategy : Strategy) (logged : List Text) (s : State)
    (v : IsLive date strategy logged s) where
  wake-IsLive : (queue : List Text) → IsLive date strategy logged (wake queue s)
  unfolding flush
  wake-IsLive [] = subst (IsLive date strategy logged) (sym (wake_stay s v.going)) v
  wake-IsLive (m ∷ queue) = record {
    on_date = v.on_date;
    kept = append-nil (flush_queue s.media s.queue) ∙ flush_queue-append s.media s.queue ∙ v.kept;
    direct = λ e. refl;
    going = v.going;
    not_ended = v.not_ended;
  }

  log_worker-IsLive : IsLive date strategy logged (log_worker s)
  log_worker-IsLive =
      subst (IsLive date strategy logged) (sym (worker_wake s s.queue v.not_ended refl))
        (wake-IsLive s.queue)

  -- Behind the start of the destructor two turns of the thread are enough.
  finish :
      (queue : List Text)
      → s.queue ≡ queue
      → let end_ = log_worker (log_worker (record s { stop_thread = true })) in
        (end_.ended ≡ true) × (end_.media ≡ logged)
  unfolding flush
  finish [] e =
      let s₀ : State = record s { stop_thread = true } in
      let s₁ : State = record s₀ { ended = true } in
      let path : log_worker (log_worker s₀) ≡ s₁ =
        ap log_worker (worker_wake s₀ [] v.not_ended e) ∙ still s₁ refl in
      (
        ap (λ z. z.ended) path,
        ap (λ z. z.media) path ∙ sym (append-nil s.media) ∙ ap (λ q. s.media ++ q) (sym e) ∙ v.kept,
      )
  finish (m ∷ queue) e =
      let s₀ : State = record s { stop_thread = true } in
      let s₁ : State = flush s₀ in
      let path : log_worker (log_worker s₀) ≡ record s₁ { ended = true } =
        ap log_worker (worker_wake s₀ (m ∷ queue) v.not_ended e)
        ∙ worker_wake s₁ [] v.not_ended refl in
      (ap (λ z. z.ended) path, ap (λ z. z.media) path ∙ flush_queue-append s.media s.queue ∙ v.kept)

run-IsLive :
    (date : Text) (strategy : Strategy) (events rest : List Event) (logged more : List Text)
    (s : State)
    → messages strategy events ≡ some more
    → (strategy ≡ file_log → AllOn date events)
    → IsLive date strategy logged s
    → (s' : State) × (run strategy (events ++ rest) s ≡ run strategy rest s')
      × IsLive date strategy (logged ++ more) s'
unfolding run step
run-IsLive date strategy [] rest logged more s e on v =
    let same : [] ≡ more = cc in
    (
      s,
      refl,
      subst (λ l. IsLive date strategy (logged ++ l) s) same
          (subst (λ l. IsLive date strategy l s) (sym (append-nil logged)) v),
    )
run-IsLive date strategy (logs d app key cause ∷ events) rest logged more s e on v =
    elim (Option-cases (message strategy app key cause)) [
      | inl lost ↦ cc (e, ap (λ o. with_message o (messages strategy events)) lost)
      | inr (m, told) ↦ elim (Option-cases (messages strategy events)) [
        | inl lost ↦ cc (
          e,
          ap (λ o. with_message o (messages strategy events)) told,
          ap (with_message (some m)) lost,
        )
        | inr (later, told') ↦
            let same : m ∷ later ≡ more = cc (
              e,
              ap (λ o. with_message o (messages strategy events)) told,
              ap (with_message (some m)) told',
            ) in
            let (s', path, v') =
              run-IsLive date strategy events rest (logged ++ m ∷ []) later (do_log strategy d m s)
                told' (λ f. (on f).1)
                (do_log-IsLive date d strategy logged m s (λ f. (on f).0) v) in
            (
              s',
              ap (λ o. and_then (log_with strategy d o s) (run strategy (events ++ rest))) told
                  ∙ path,
              subst (λ l. IsLive date strategy l s')
                  (append_assoc logged (m ∷ []) later ∙ ap (λ l. logged ++ l) same) v',
            )
      ]
    ]
run-IsLive date strategy (works ∷ events) rest logged more s e on v =
    run-IsLive date strategy events rest logged more (log_worker s) e on
      (log_worker-IsLive date strategy logged s v)
run-IsLive date strategy (stops ∷ events) rest logged more s e on v = cc

-- From the start at a date, through any calls of `Log` and any turns of the thread, where no index is out of
-- range and, with the file strategy, every call is at that date: once the destructor has begun, two turns of
-- the thread end it, and then every message has been handed to the medium, once and in the order of the
-- calls. Whether the medium takes it is not part of this.
pub run-messages :
    (date : Text) (strategy : Strategy) (events : List Event) (more : List Text)
    → messages strategy events ≡ some more
    → (strategy ≡ file_log → AllOn date events)
    → (s : State) × (run strategy (events ++ stops ∷ works ∷ works ∷ []) (init date) ≡ some s)
      × (s.ended ≡ true)
      × (s.media ≡ more)
unfolding run step
run-messages date strategy events more e on =
    let start : IsLive date strategy [] (init date) = record {
      on_date = refl;
      kept = refl;
      direct = λ h. refl;
      going = refl;
      not_ended = refl;
    } in
    let (s, same, v) =
      run-IsLive date strategy events (stops ∷ works ∷ works ∷ []) [] more (init date) e on start in
    let (ended_, written) = finish date strategy more s v s.queue refl in
    (log_worker (log_worker (record s { stop_thread = true })), same, ended_, written)
