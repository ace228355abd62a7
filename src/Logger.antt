-- ===== src/Logger.antt =====
-- protocol-server/src/utils/logger: the strategies, the queue of messages and the thread that writes
-- them. What is written goes to a medium that keeps it in order. Each call of `Log`, and each turn of
-- the thread, holds the mutex of the logger, so a run is a sequence of them. Files, Database and
-- Network have the media, with their failures, which are left out here.
pub mod Quotes
pub mod Complete
pub mod Files
pub mod Lost
pub mod Database
pub mod Network
mod Tests
use cpp_socket_programming.Prelude.{
  ℕ, zero, suc, ◌+◌, Bool, true, false, ◌&&◌, List, [], ◌∷◌, ◌++◌, Option, none, some, ◌==◌,
  if◌then◌else◌, length,
}
use cpp_socket_programming.Text.{Text, split}

abbrev pub equals : Text → Text → Bool
equals [] [] = true
equals [] (d ∷ ds) = false
equals (c ∷ cs) [] = false
equals (c ∷ cs) (d ∷ ds) = c == d && equals cs ds

pub data Strategy : Type 0 where
  null_log db_log file_log net_log : Strategy

-- DB
abbrev pub db : Text
db = 68 ∷ 66 ∷ []

-- FILE
abbrev pub file : Text
file = 70 ∷ 73 ∷ 76 ∷ 69 ∷ []

-- NET
abbrev pub net : Text
net = 78 ∷ 69 ∷ 84 ∷ []

-- `LoggerFactory::CreateLogger`.
unfoldable pub create_logger : Text → Strategy
create_logger t =
    if equals t db
    then db_log
    else if equals t file
    then file_log
    else if equals t net
    then net_log
    else null_log

pub data LogCode : Type 0 where
  info error query latency : LogCode

-- QUERY
abbrev pub query_key : Text
query_key = 81 ∷ 85 ∷ 69 ∷ 82 ∷ 89 ∷ []

-- LATENCY
abbrev pub latency_key : Text
latency_key = 76 ∷ 65 ∷ 84 ∷ 69 ∷ 78 ∷ 67 ∷ 89 ∷ []

-- INFO
abbrev pub info_key : Text
info_key = 73 ∷ 78 ∷ 70 ∷ 79 ∷ []

-- `NetLogStrategy::getLogCode`.
unfoldable pub get_log_code : Text → LogCode
get_log_code key =
    if equals key query_key
    then query
    else if equals key latency_key
    then latency
    else if equals key info_key
    then info
    else error

-- `regex_replace`: a backslash in front of each quote.
unfoldable pub escape_quotes : Text → Text
escape_quotes [] = []
escape_quotes (c ∷ cs) = if c == b'"' then b'\\' ∷ b'"' ∷ escape_quotes cs else c ∷ escape_quotes cs

-- app + " " + key + " " + cause
abbrev pub log_line : Text → Text → Text → Text
log_line app key cause = app ++ (b' ' ∷ (key ++ (b' ' ∷ cause)))

-- {"type": "query","query":"
abbrev pub query_open : Text
query_open =
    123 ∷ 34 ∷ 116 ∷ 121 ∷ 112 ∷ 101 ∷ 34 ∷ 58 ∷ 32 ∷ 34 ∷ 113 ∷ 117 ∷ 101 ∷ 114 ∷ 121 ∷ 34 ∷ 44
    ∷ 34 ∷ 113 ∷ 117 ∷ 101 ∷ 114 ∷ 121 ∷ 34 ∷ 58 ∷ 34 ∷ []

-- ","correlation_id":"
abbrev pub id_open : Text
id_open =
    34 ∷ 44 ∷ 34 ∷ 99 ∷ 111 ∷ 114 ∷ 114 ∷ 101 ∷ 108 ∷ 97 ∷ 116 ∷ 105 ∷ 111 ∷ 110 ∷ 95 ∷ 105 ∷ 100
    ∷ 34 ∷ 58 ∷ 34 ∷ []

-- "}, newline
abbrev pub object_end : Text
object_end = 34 ∷ 125 ∷ 10 ∷ []

-- {"type": "latency","latency": "
abbrev pub latency_open : Text
latency_open =
    123 ∷ 34 ∷ 116 ∷ 121 ∷ 112 ∷ 101 ∷ 34 ∷ 58 ∷ 32 ∷ 34 ∷ 108 ∷ 97 ∷ 116 ∷ 101 ∷ 110 ∷ 99 ∷ 121
    ∷ 34 ∷ 44 ∷ 34 ∷ 108 ∷ 97 ∷ 116 ∷ 101 ∷ 110 ∷ 99 ∷ 121 ∷ 34 ∷ 58 ∷ 32 ∷ 34 ∷ []

-- ","host": "
abbrev pub host_open : Text
host_open = 34 ∷ 44 ∷ 34 ∷ 104 ∷ 111 ∷ 115 ∷ 116 ∷ 34 ∷ 58 ∷ 32 ∷ 34 ∷ []

-- {"type": "application_log","application_log": "
abbrev pub application_open : Text
application_open =
    123 ∷ 34 ∷ 116 ∷ 121 ∷ 112 ∷ 101 ∷ 34 ∷ 58 ∷ 32 ∷ 34 ∷ 97 ∷ 112 ∷ 112 ∷ 108 ∷ 105 ∷ 99 ∷ 97
    ∷ 116 ∷ 105 ∷ 111 ∷ 110 ∷ 95 ∷ 108 ∷ 111 ∷ 103 ∷ 34 ∷ 44 ∷ 34 ∷ 97 ∷ 112 ∷ 112 ∷ 108 ∷ 105 ∷ 99
    ∷ 97 ∷ 116 ∷ 105 ∷ 111 ∷ 110 ∷ 95 ∷ 108 ∷ 111 ∷ 103 ∷ 34 ∷ 58 ∷ 32 ∷ 34 ∷ []

-- `params[0]` and `params[1]`, which is out of range where the cause has no comma.
abbrev pub latency_message : Text → Option (List Text) → Option Text
latency_message app none = none
latency_message app (some []) = none
latency_message app (some (value ∷ [])) = none
latency_message app (some (value ∷ host ∷ rest)) =
    some (latency_open ++ (value ++ (id_open ++ (app ++ (host_open ++ (host ++ object_end))))))

abbrev pub message_of : LogCode → Text → Text → Text → Option Text
message_of query app key cause = some (query_open ++ (cause ++ (id_open ++ (app ++ object_end))))
message_of latency app key cause = latency_message app (split (length cause + 1) (b',' ∷ []) cause)
message_of info app key cause = some (application_open ++ (log_line app key cause ++ object_end))
message_of error app key cause = some (application_open ++ (log_line app key cause ++ object_end))

-- `NetLogStrategy::Log`, up to `DoLog`; `none` is an index out of range.
unfoldable pub net_message : Text → Text → Text → Option Text
unfolding get_log_code escape_quotes split
net_message app key cause = message_of (get_log_code key) app key (escape_quotes cause)

-- `LogStrategy::Log`, up to `DoLog`.
unfoldable pub message : Strategy → Text → Text → Text → Option Text
unfolding net_message
message net_log app key cause = net_message app key cause
message null_log app key cause = some (log_line app key cause)
message db_log app key cause = some (log_line app key cause)
message file_log app key cause = some (log_line app key cause)

-- The queue of the writer, what has been handed to `WriteToMedia`, and the thread.
pub record State : Type 0 where
  pub file_name : Text  -- the date of the writer of the file strategy
  pub queue : List Text
  pub media : List Text
  pub stop_thread : Bool
  pub ended : Bool

abbrev pub init : Text → State
init date = record { file_name = date; queue = []; media = []; stop_thread = false; ended = false }

-- The file strategy at a new date makes a new writer, and the queue of the old one is lost.
abbrev pub queue_on : Bool → List Text → Text → List Text
queue_on true queue m = queue ++ m ∷ []
queue_on false queue m = m ∷ []

-- `DoLog` at a date: the null strategy writes at once, the others `Write` to the queue.
unfoldable pub do_log : Strategy → Text → Text → State → State
do_log null_log date m s = record s { media = s.media ++ m ∷ [] }
do_log db_log date m s = record s { queue = s.queue ++ m ∷ [] }
do_log file_log date m s = record s {
  file_name = date;
  queue = queue_on (equals s.file_name date) s.queue m;
}
do_log net_log date m s = record s { queue = s.queue ++ m ∷ [] }

-- `Flush`.
abbrev pub flush_queue : List Text → List Text → List Text
flush_queue media [] = media
flush_queue media (m ∷ queue) = flush_queue (media ++ m ∷ []) queue

unfoldable pub flush : State → State
flush s = record s { queue = []; media = flush_queue s.media s.queue }

-- A turn of `logWorker` behind its wait.
abbrev pub wake : List Text → State → State
wake [] s = if s.stop_thread then record s { ended = true } else s
wake (m ∷ queue) s = flush s

unfoldable pub log_worker : State → State
unfolding flush
log_worker s = if s.ended then s else wake s.queue s

pub data Event : Type 0 where
  logs : Text → Text → Text → Text → Event  -- the date, and the arguments of `Log`
  works stops : Event

abbrev pub log_with : Strategy → Text → Option Text → State → Option State
log_with strategy date none s = none
log_with strategy date (some m) s = some (do_log strategy date m s)

-- `Log`, a turn of the thread, and the start of the destructor.
unfoldable pub step : Strategy → Event → State → Option State
unfolding message do_log log_worker
step strategy (logs date app key cause) s =
    log_with strategy date (message strategy app key cause) s
step strategy works s = some (log_worker s)
step strategy stops s = some (record s { stop_thread = true })

abbrev pub and_then : Option State → (State → Option State) → Option State
and_then none f = none
and_then (some s) f = f s

unfoldable pub run : Strategy → List Event → State → Option State
unfolding step
run strategy [] s = some s
run strategy (e ∷ events) s = and_then (step strategy e s) (run strategy events)
