-- ===== src/Logger/Tests.antt =====
-- Messages with a quote, and a run of the logger.
use cpp_socket_programming.Prelude.{
  Bool, Option, ◌==◌, if◌then◌else◌, ◌≡◌, refl, true, false, List, [], ◌∷◌, ◌++◌, none, some, arith,
  IsPart,
}
use cpp_socket_programming.Text.{Text, split, find, strip}
use cpp_socket_programming.Logger.Quotes.{read_string}
use cpp_socket_programming.Logger.Files
use cpp_socket_programming.Logger.Files.{run-files}
use cpp_socket_programming.Logger.Lost.{logs_on, flushed, run-late}
use cpp_socket_programming.Logger.Database
use cpp_socket_programming.Logger.Database.{value_of, IsInserting, those, flush-rows}
use cpp_socket_programming.Logger.Network
use cpp_socket_programming.Logger.Network.{run-wire}
use cpp_socket_programming.ClientSocket.{throws, resolve}
use cpp_socket_programming.Logger.Complete.{messages, run-messages}
use cpp_socket_programming.Logger.{
  file_log, net_message, latency_key, log_line, State, init, escape_quotes, Event, logs, works,
  stops, run, message, get_log_code,
}

-- s"a"
abbrev quoted : Text
quoted = 115 ∷ 34 ∷ 97 ∷ 34 ∷ []

-- A backslash before a quote ends the string early.
read_string-backslash :
    read_string false (escape_quotes (92 ∷ 34 ∷ 97 ∷ []) ++ (34 ∷ []))
    ≡ some (92 ∷ [], 97 ∷ 34 ∷ [])
unfolding read_string escape_quotes
read_string-backslash = refl

-- A latency without a comma has no host.
net_message-latency : net_message [] latency_key (49 ∷ []) ≡ none
unfolding net_message get_log_code escape_quotes split find strip
net_message-latency = refl

abbrev history : List Event
history = logs [] (65 ∷ []) (66 ∷ []) (67 ∷ []) ∷ works ∷ logs [] (65 ∷ []) (66 ∷ []) quoted ∷ []

messages-history :
    messages file_log history
    ≡ some (log_line (65 ∷ []) (66 ∷ []) (67 ∷ []) ∷ log_line (65 ∷ []) (66 ∷ []) quoted ∷ [])
unfolding message
messages-history = refl

run-messages_example :
    (s : State) × (run file_log (history ++ stops ∷ works ∷ works ∷ []) (init []) ≡ some s)
    × (s.ended ≡ true)
    × (s.media ≡ log_line (65 ∷ []) (66 ∷ []) (67 ∷ []) ∷ log_line (65 ∷ []) (66 ∷ []) quoted ∷ [])
run-messages_example =
    run-messages [] file_log history
      (log_line (65 ∷ []) (66 ∷ []) (67 ∷ []) ∷ log_line (65 ∷ []) (66 ∷ []) quoted ∷ [])
      messages-history (λ e. (refl, (refl, tt)))

-- Two dates, and a flush in which the second file cannot be opened.
abbrev day : Text
day = 49 ∷ []

abbrev next_day : Text
next_day = 50 ∷ []

abbrev two_days : List Files.Event
two_days =
    Files.logs day (65 ∷ [])
    ∷ Files.flushes (λ i. true)
    ∷ Files.logs next_day (66 ∷ [])
    ∷ Files.flushes (λ i. false)
    ∷ []

run-files_example :
    let s = Files.run two_days (Files.init day) in
    IsPart (s.files ++ Files.waiting s) (Files.logged two_days)
run-files_example = run-files day two_days

run-late_example :
    let events =
      logs_on day ((65 ∷ []) ∷ [])
      ++ (flushed
          ∷ (logs_on day ((66 ∷ []) ∷ []) ++ (Files.logs next_day (67 ∷ []) ∷ flushed ∷ []))) in
    Files.run events (Files.init day) ≡ record {
      file_name = next_day;
      queue = [];
      files = Files.line day (65 ∷ []) ∷ Files.line next_day (67 ∷ []) ∷ [];
    }
run-late_example = run-late day next_day ((65 ∷ []) ∷ []) ((66 ∷ []) ∷ []) (67 ∷ []) refl

-- One row for each statement that ends well; the statement is read as SQLite reads it.
abbrev add_row : Option (Text × Text) → List Text → Bool × List Text
add_row none rows = (false, rows)
add_row (some (m, rest)) rows = (true, rows ++ (m ∷ []))

abbrev exec : Text → List Text → Bool × List Text
exec query rows = add_row (value_of query) rows

exec-IsInserting : IsInserting exec (λ rows. rows)
exec-IsInserting query m rows e = rw e (λ h. refl, λ h. absurd cc)

flush-rows_example :
    let p = Database.flush exec true ((65 ∷ []) ∷ (66 ∷ []) ∷ []) [] in
    p.1 ≡ those p.0 ((65 ∷ []) ∷ (66 ∷ []) ∷ [])
flush-rows_example =
    flush-rows exec (λ rows. rows) true ((65 ∷ []) ∷ (66 ∷ []) ∷ []) [] exec-IsInserting
      (
        (λ e. absurd (omega arith), tt),
        (λ e. absurd (omega arith), tt),
        ((λ e. absurd (omega arith), tt), (λ e. absurd (omega arith), tt), tt),
      )

-- A client whose socket is 3, and the socket 4 of another thread.
abbrev host_only : Network.State
host_only = record { client_socket = 3; table = λ fd. if fd == 3 then some 0 else none; wire = [] }

abbrev traffic : List Network.Event
traffic =
    Network.sends (65 ∷ []) (Network.bytes 1)
    ∷ Network.opens 4 7
    ∷ Network.sends (66 ∷ []) Network.failed
    ∷ Network.sends (67 ∷ []) (Network.bytes 1)
    ∷ []

run-wire_example : (Network.run traffic host_only).wire ≡ (0, 65 ∷ []) ∷ []
run-wire_example = run-wire traffic host_only (λ e. absurd (omega arith), tt) refl

constructs :
    (Network.construct
      (some 3)
      (49 ∷ [])
      (record { found = true; connects = false })
      (record host_only { table = λ fd. none })).0
    ≡ throws
unfolding Network.construct resolve
constructs = refl
