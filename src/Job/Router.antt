-- ===== src/Job/Router.antt =====
-- services/job-service/app/routers/jobs.py: the endpoints that read or change jobs, each behind its
-- token. The clock's reading, the fresh id and the broker stand in the request.
use dhp.Prelude.{ℕ, String, Option, none, some, if◌then◌else◌, List, [], ◌∷◌}
use dhp.Kafka.{Broker}
use dhp.Security.{Tokens, require_api_key, require_internal_token}
use dhp.Job.{JobCreateRequest, JobStatusUpdate, JobResponse, accepts}
use dhp.Job.Service.{World, create_job, get_job, update_job_status, cancel_job}

-- What an endpoint answers: a body, or an HTTP error's status.
pub data Reply : Type 0 where
  body : JobResponse → Reply
  error : ℕ → Reply

pub data Call : Type 0 where
  submit : String → ℕ → Broker → JobCreateRequest → Call
  get : String → Call
  cancel : String → ℕ → Broker → Call
  update_status : String → ℕ → Broker → JobStatusUpdate → Call

abbrev pub or_error : ℕ → Option JobResponse → Reply
or_error code none = error code
or_error code (some r) = body r

-- `submit_job`: 422 when the request's fields are out of bounds, 500 when the INSERT raises.
abbrev pub submit_job : String → ℕ → Broker → JobCreateRequest → World → Reply × World
submit_job job_id now b r w =
    let (job, w') = create_job job_id now b r w in
    if accepts r then (or_error 500 job, w') else (error 422, w)

abbrev pub endpoint : Call → World → Reply × World
endpoint (submit job_id now b r) w = submit_job job_id now b r w
endpoint (get job_id) w = (or_error 404 (get_job job_id w), w)
endpoint (cancel job_id now b) w =
    let (job, w') = cancel_job job_id b now w in (or_error 404 job, w')
endpoint (update_status job_id now b u) w =
    let (job, w') = update_job_status job_id b now u w in (or_error 404 job, w')

-- The token that an endpoint asks for.
abbrev pub guard : Tokens → Call → Option String → Option ℕ
guard t (update_status _ _ _ _) header = require_internal_token t header
guard t (submit _ _ _ _) header = require_api_key t header
guard t (get _) header = require_api_key t header
guard t (cancel _ _ _) header = require_api_key t header

-- A request with the header that carries its token.
unfoldable pub handle : Tokens → Option String → Call → World → Reply × World
handle t header c w = elim (guard t c header) [ none ↦ endpoint c w | some code ↦ (error code, w) ]

-- The service over a sequence of requests.
unfoldable pub serve : Tokens → List (Option String × Call) → World → World
serve t [] w = w
serve t ((header, c) ∷ rest) w = serve t rest (handle t header c w).1
