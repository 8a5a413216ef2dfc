-- ===== src/Logs/Router.antt =====
-- services/log-service/app/routers/logs.py: the two endpoints, the counters that they raise, and the events
-- of the stream. Python's `>` on texts and `str` of a JSON value are arguments.
use dhp.Prelude.{
  ℕ, String, Bool, true, ◌&&◌, Option, none, some, List, [], ◌∷◌, ◌++◌, if◌then◌else◌, leb, length,
  format, get_or,
}
use dhp.Json.{Json}
use dhp.Http.{Reply, ok, error}
use dhp.Logs.{LogEntry, LokiAnswer, Clock, query_logs}

pub data Metric : Type 0 where
  log_queries_total : (source outcome : String) → Metric
  loki_errors_total : Metric

pub record JobLogs : Type 0 where
  pub job_id : String
  pub source : String
  pub log_count : ℕ
  pub entries : List LogEntry

-- `get_job_logs`: the reply and the counters raised. `query_logs` does not raise.
unfoldable pub get_job_logs :
    Clock → String → String → Option ℕ → LokiAnswer → Reply JobLogs × List Metric
get_job_logs clock job_id source tail answer =
    let lines = get_or tail 500 in
    let logs = query_logs clock job_id answer in
    if leb 1 lines && leb lines 10000
    then (
      ok (record { job_id = job_id; source = source; log_count = length logs; entries = logs }),
      log_queries_total "range" "success" ∷ [],
    )
    else (error 422, [])

module _ (after : String → String → Bool) where
  abbrev pub is_new : Option String → LogEntry → Bool
  is_new none log = true
  is_new (some t) log = after log.timestamp t

  -- The loop over the logs of one poll: what is sent, and `last_timestamp` after it.
  unfoldable pub send_new : List LogEntry → Option String → List LogEntry × Option String
  send_new [] last = ([], last)
  send_new (log ∷ logs) last =
      let (sent, next) = send_new logs (some log.timestamp) in
      let (rest, kept) = send_new logs last in
      if is_new last log then (log ∷ sent, next) else (rest, kept)

  -- `event_generator` over so many polls, by what Loki answers to each.
  unfoldable pub event_generator : Clock → String → List LokiAnswer → Option String → List LogEntry
  event_generator clock job_id [] last = []
  event_generator clock job_id (a ∷ answers) last =
      let (sent, next) = send_new (query_logs clock job_id a) last in
      sent ++ event_generator clock job_id answers next

-- The data of an event.
unfoldable pub event_data : (Json → String) → LogEntry → String
event_data to_str log =
    format ("[" ∷ log.timestamp ∷ "] [" ∷ to_str log.source ∷ "] " ∷ to_str log.message ∷ [])
