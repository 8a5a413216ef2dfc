-- ===== src/Job/Retry.antt =====
-- The retry budget of `update_job_status`, over any number of failures that are reported.
use dhp.Prelude.{
  ℕ, suc, ◌+◌, ◌-◌, ◌≤◌, min, String, Bool, ◌&&◌, none, some, List, [], ◌∷◌, ◌≡◌, ◌∙◌, arith,
  if◌then◌else◌, str_eq, eq_refl, length, count, All, leb, ltb,
}
use dhp.Kafka.{Broker, send_job_event, Message, started, acknowledged}
use dhp.Job.{Job, queued, failed, dead, JobStatusUpdate}
use dhp.Job.Table.{find, job_id-find}
use dhp.Job.Service.{World, job_topic, update_job_status}
use dhp.Job.Effects.{updated_row, find-change_row, jobs-update_job_status, job_id-updated_row}

-- A status callback: the broker during it, the clock, and what it reports.
pub record Report : Type 0 where
  pub broker : Broker
  pub now : ℕ
  pub update : JobStatusUpdate

-- The callbacks for one job, one after the other.
unfoldable pub report_all : String → List Report → World → World
report_all i [] w = w
report_all i (r ∷ rs) w = report_all i rs (update_job_status i r.broker r.now r.update w).1

-- A failure, during which a started producer is acknowledged.
abbrev pub IsFailure : Report → Type 0
IsFailure r = (r.update.status ≡ failed) × (r.broker.delivers started ≡ acknowledged)

abbrev is_submission : String → Message → Bool
is_submission i m = str_eq m.topic job_topic && str_eq m.key i

-- How many events have asked the orchestrator to launch the job.
abbrev pub submissions : String → World → ℕ
submissions i w = count (is_submission i) w.kafka.stored

pub find-update_job_status :
    (i : String) (b : Broker) (now : ℕ) (u : JobStatusUpdate) (w : World) (k : String)
    → find k (update_job_status i b now u w).1.jobs ≡ (
        if str_eq i k
        then elim (find k w.jobs) [ none ↦ none | some j ↦ some (updated_row u now j) ]
        else find k w.jobs)
find-update_job_status i b now u w k =
    rw jobs-update_job_status
      (find-change_row i (updated_row u now) (job_id-updated_row u now) k w.jobs)

module _ (i : String) (r : Report) (w : World) {j : Job} (there : find i w.jobs ≡ some j) where
  submissions_step :
      IsFailure r
      → w.kafka.producer ≡ started
      → ((update_job_status i r.broker r.now r.update w).1.kafka.producer ≡ started)
        × (submissions i (update_job_status i r.broker r.now r.update w).1
            ≡ (if ltb j.retry_count j.max_retries then 1 else 0) + submissions i w)
  unfolding update_job_status send_job_event
  submissions_step f up = ground (arith, eq_refl i, job_id-find i w.jobs {j = j} there)

  retries_step :
      IsFailure r
      → j.retry_count ≤ j.max_retries
      → (j' : Job) × (find i (update_job_status i r.broker r.now r.update w).1.jobs ≡ some j')
        × (j'.max_retries ≡ j.max_retries)
        × (j'.retry_count
            ≡ (if ltb j.retry_count j.max_retries then j.retry_count + 1 else j.retry_count))
        × (j'.status ≡ (if ltb j.retry_count j.max_retries then queued else dead))
  retries_step f le = (
    updated_row r.update r.now j,
    rw find-update_job_status (ground (arith, eq_refl i)),
    ground arith,
    ground arith,
    ground arith,
  )

-- The state that `n` more failures leave, from `r` retries of `m`.
pub record Exhausts (i : String) (r m n s : ℕ) (w : World) : Type 0 where
  pub row : Job
  pub there : find i w.jobs ≡ some row
  pub retries : row.retry_count ≡ min (r + n) m
  pub budget : row.max_retries ≡ m
  pub status : row.status ≡ (if leb (r + n) m then queued else dead)
  pub sent : submissions i w ≡ min n (m - r) + s

module _ (i : String) where
  -- Failures reported one after the other, while Kafka is up: from `r` retries of a budget `m`, `n`
  -- failures leave the row with the smaller of `r + n` and `m` retries, QUEUED if `r + n` is within the
  -- budget and DEAD from then on, and ask for exactly as many new launches as retries were left,
  -- at most `n`.
  pub report_all-Exhausts :
      (q : Report) (rs : List Report) (w : World) {j : Job}
      → find i w.jobs ≡ some j
      → j.retry_count ≤ j.max_retries
      → w.kafka.producer ≡ started
      → IsFailure q
      → All IsFailure rs
      → Exhausts i j.retry_count j.max_retries
          (suc (length rs))
          (submissions i w)
          (report_all i (q ∷ rs) w)
  unfolding report_all
  report_all-Exhausts q [] w {j} there le up f fs =
      let (j', there', budget, retries, status) = retries_step i q w there f le in
      let (up', sent) = submissions_step i q w there f up in
      record {
        row = j';
        there = there';
        retries = ground arith;
        budget = budget;
        status = ground arith;
        sent = ground arith;
      }
  report_all-Exhausts q (r ∷ rs) w {j} there le up f fs =
      let (j', there', budget, retries, status) = retries_step i q w there f le in
      let (up', sent) = submissions_step i q w there f up in
      let rest =
        report_all-Exhausts r rs (update_job_status i q.broker q.now q.update w).1 there'
          (ground arith) up' fs.0 fs.1 in
      record {
        row = rest.row;
        there = rest.there;
        retries = ground (arith, rest.retries);
        budget = rest.budget ∙ budget;
        status = ground (arith, rest.status);
        sent = ground (arith, rest.sent);
      }
