-- ===== src/Job/Logs.antt =====
-- services/job-service/app/routers/jobs.py: `get_job_logs`, and the request of `JobService.get_job_logs` to the
-- log service. What the log service answers is an argument.
use dhp.Prelude.{
  ℕ, String, Bool, true, false, ◌&&◌, Option, none, some, [], ◌∷◌, if◌then◌else◌, leb, format,
  get_or, suc, ◌≡◌, refl,
}
use dhp.Prelude.Dict.{lookup}
use dhp.Json.{Json, list, object, Items, nil, cons, fields, entries}
use dhp.Http.{Reply, ok, error}
use dhp.Job.Service.{World, get_job}

pub data LogSource : Type 0 where
  stdout stderr driver executor all : LogSource

abbrev source_value : LogSource → String
source_value stdout = "stdout"
source_value stderr = "stderr"
source_value driver = "driver"
source_value executor = "executor"
source_value all = "all"

record Settings : Type 0 where
  log_service_url : String
  log_service_api_key : String

record LogRequest : Type 0 where
  url : String
  api_key : String
  source : String
  tail : ℕ

-- The request raises, or its body is JSON.
pub data LogAnswer : Type 0 where
  raises : LogAnswer
  payload : Json → LogAnswer

abbrev log_request : Settings → String → String → ℕ → LogRequest
log_request s job_id source tail = record {
  url = format (s.log_service_url ∷ "/api/v1/logs/" ∷ job_id ∷ []);
  api_key = s.log_service_api_key;
  source = source;
  tail = tail;
}

-- `JobService.get_job_logs`: every exception is no logs, that of a body that is no object among them.
unfoldable fetched : LogAnswer → Json
fetched raises = list nil
fetched (payload (object fs)) = get_or (lookup "entries" (entries fs)) (list nil)
fetched (payload _) = list nil

record JobLogsResponse : Type 0 where
  job_id : String
  log_count : ℕ
  entries : Items

abbrev count_of : Items → ℕ
count_of nil = 0
count_of (cons x xs) = suc (count_of xs)

abbrev are_objects : Items → Bool
are_objects nil = true
are_objects (cons (object fs) xs) = are_objects xs
are_objects (cons _ xs) = false

-- `JobLogsResponse`: entries that are no list of objects raise.
abbrev logs_reply : String → Json → Reply JobLogsResponse
logs_reply job_id (list xs) =
    if are_objects xs
    then ok (record { job_id = job_id; log_count = count_of xs; entries = xs })
    else error 500
logs_reply job_id _ = error 500

unfoldable get_job_logs :
    Settings
    → String
    → LogSource
    → Option ℕ
    → (LogRequest → LogAnswer)
    → World
    → Reply JobLogsResponse
get_job_logs s job_id source tail answer w =
    let lines = get_or tail 500 in
    if leb 1 lines && leb lines 10000
    then elim (get_job job_id w) [
      | none ↦ error 404
      | some job ↦
          logs_reply job_id (fetched (answer (log_request s job_id (source_value source) lines)))
    ]
    else error 422

-- A log service that is down is answered as a job without logs.
down_test :
    logs_reply "j" (fetched raises) ≡ ok (record { job_id = "j"; log_count = 0; entries = nil })
unfolding fetched
down_test = refl

entries_test :
    logs_reply "j"
      (fetched (payload (object (fields (("entries", list (cons (object (fields [])) nil)) ∷ [])))))
    ≡ ok (record { job_id = "j"; log_count = 1; entries = cons (object (fields [])) nil })
unfolding fetched
entries_test = refl
