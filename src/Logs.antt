-- ===== src/Logs.antt =====
-- services/log-service/app/loki_client.py: `LokiClient.query_logs`. What Loki answers is an argument; instants
-- are seconds since 1970, with the range of the last day after it, and the two conversions of time
-- stamps are arguments.
pub mod Router
pub mod Stream
mod Tests
use dhp.Prelude.{
  ℕ, ◌-◌, String, Bool, Option, none, some, List, [], ◌∷◌, ◌++◌, if◌then◌else◌, str_eq, format,
  get_or, truthy,
}
use dhp.Prelude.Dict.{Dict, lookup}
use dhp.Json.{Json, str, list, object, Items, nil, cons, end, fields, entries}

pub record LogEntry : Type 0 where
  pub timestamp : String
  pub message : Json
  pub source : Json
  pub level : Json
  pub job_id : Json

-- The parameters of the range query.
pub record LokiQuery : Type 0 where
  pub url : String
  pub query : String
  pub limit : ℕ
  pub start : ℕ
  pub end : ℕ
  pub direction : String

pub record Settings : Type 0 where
  pub loki_url : String
  pub loki_query_path : String

-- `int(t.timestamp() * 1e9)`, and the ISO text of a time stamp in nanoseconds, which raises where it is no
-- number.
pub record Clock : Type 0 where
  pub nanoseconds : ℕ → ℕ
  pub iso_of : Json → Option String

-- An error status, a failed connection, or a body that is JSON.
pub data LokiAnswer : Type 0 where
  http_status_error : ℕ → LokiAnswer
  connect_error : LokiAnswer
  answered : Json → LokiAnswer

abbrev pub logql : String → String → String
logql job_id source =
    if str_eq source "all"
    then format ("{job_id=\"" ∷ job_id ∷ "\"}" ∷ [])
    else format ("{job_id=\"" ∷ job_id ∷ "\", source=\"" ∷ source ∷ "\"}" ∷ [])

-- The request of `query_logs` at an instant.
unfoldable pub loki_query :
    Settings → Clock → ℕ → String → String → ℕ → Option ℕ → Option ℕ → LokiQuery
loki_query s clock now job_id source tail start until =
    let last = get_or until now in
    record {
      url = format (s.loki_url ∷ s.loki_query_path ∷ []);
      query = logql job_id source;
      limit = tail;
      start = clock.nanoseconds (get_or start (last - 86400));
      end = clock.nanoseconds last;
      direction = "backward";
    }

-- `j.get(key, default)`, and what a loop over `j` meets; `none` where they raise. A loop over a text or a
-- dict that is not empty is taken to raise, as its texts have no fields.
abbrev get : String → Json → Json → Option Json
get key default (object fs) = some (get_or (lookup key (entries fs)) default)
get key default _ = none

abbrev elements : Json → Option Items
elements (list xs) = some xs
elements (object end) = some nil
elements (str s) = if truthy s then none else some nil
elements _ = none

infixl 5 ◌>>=◌
abbrev ◌>>=◌ {ℓ κ} : {A : Type ℓ} {B : Type κ} → Option A → (A → Option B) → Option B
none >>= f = none
some a >>= f = f a

module _ (clock : Clock) (job_id : String) where
  -- One `[timestamp_ns, message]` of a stream.
  abbrev entry : Json → Json → Option LogEntry
  entry labels (list (cons t (cons message nil))) = do
    timestamp ← clock.iso_of t
    source ← get "source" (str "unknown") labels
    level ← get "level" (str "INFO") labels
    job ← get "job_id" (str job_id) labels
    some (record {
      timestamp = timestamp;
      message = message;
      source = source;
      level = level;
      job_id = job;
    })
  entry labels _ = none

  abbrev pub stream_logs : Json → Items → Option (List LogEntry)
  stream_logs labels nil = some []
  stream_logs labels (cons v vs) = do
    first ← entry labels v
    rest ← stream_logs labels vs
    some (first ∷ rest)

  abbrev pub result_logs : Items → Option (List LogEntry)
  result_logs nil = some []
  result_logs (cons stream streams) = do
    labels ← get "stream" (object (fields [])) stream
    values ← get "values" (list nil) stream
    lines ← elements values
    first ← stream_logs labels lines
    rest ← result_logs streams
    some (first ++ rest)

  abbrev pub parse_logs : Json → Option (List LogEntry)
  parse_logs body = do
    d ← get "data" (object (fields [])) body
    result ← get "result" (list nil) d
    streams ← elements result
    result_logs streams

  -- What `query_logs` returns: every exception is caught, and is no logs.
  unfoldable pub query_logs : LokiAnswer → List LogEntry
  query_logs (http_status_error code) = []
  query_logs connect_error = []
  query_logs (answered body) = get_or (parse_logs body) []
