-- ===== src/Job/Effects.antt =====
-- What each method of `JobService` leaves in the table, row by row, with Kafka and metrics gone.
use dhp.Prelude.{
  ℕ, ◌+◌, String, Bool, true, false, none, some, List, ◌≡◌, ltb, if◌then◌else◌, arith, Option-cases,
  inl, inr, str_eq, eq_iff,
}
use dhp.Kafka.{Broker}
use dhp.Job.{
  Job, JobStatus, pending, queued, failed, cancelled, dead, JobCreateRequest, JobStatusUpdate,
}
use dhp.Job.Table.{find, save, add, find-save, job_id-find, save-find}
use dhp.Job.Service.{
  World, new_job, enqueue_error, job_event, job_topic, send, create_job, update_job_status,
  cancel_job, reported, is_terminal,
}

-- The row that a status update leaves.
abbrev pub row_after : JobStatus → Job → Job
row_after failed j =
    if ltb j.retry_count j.max_retries
    then record j { retry_count = j.retry_count + 1; status = queued }
    else record j { status = dead }
row_after _ j = j

abbrev pub updated_row : JobStatusUpdate → ℕ → Job → Job
updated_row u now j = row_after u.status (reported u now j)

-- The row that a cancellation leaves.
abbrev pub cancelled_row : ℕ → Job → Job
cancelled_row now j =
    if is_terminal j.status then j else record j { status = cancelled; completed_at = some now }

-- The row that a submission leaves, by whether its event was sent.
abbrev pub created_row : Bool → Job → Job
created_row true j = record j { status = queued }
created_row false j = record j { status = pending; error_message = some enqueue_error }

abbrev pub change_row : String → (Job → Job) → List Job → List Job
change_row i f js = elim (find i js) [ none ↦ js | some j ↦ save (f j) js ]

pub jobs-update_job_status :
    (i : String) (b : Broker) (now : ℕ) (u : JobStatusUpdate) (w : World)
    → (update_job_status i b now u w).1.jobs ≡ change_row i (updated_row u now) w.jobs
unfolding update_job_status
jobs-update_job_status i b now u w = ground arith

-- Whether the event of a submission is sent.
abbrev pub is_sent : String → ℕ → Broker → JobCreateRequest → World → Bool
is_sent i now b r w = (send b job_topic i (job_event (new_job i now r)) w).0

pub jobs-create_job :
    (i : String) (now : ℕ) (b : Broker) (r : JobCreateRequest) (w : World)
    → find i w.jobs ≡ none
    → (create_job i now b r w).1.jobs
      ≡ save (created_row (is_sent i now b r w) (new_job i now r)) (add (new_job i now r) w.jobs)
unfolding create_job
jobs-create_job i now b r w h = ground arith

pub jobs-create_job_clash :
    (i : String) (now : ℕ) (b : Broker) (r : JobCreateRequest) (w : World) {j : Job}
    → find i w.jobs ≡ some j
    → (create_job i now b r w).1.jobs ≡ w.jobs
unfolding create_job
jobs-create_job_clash i now b r w h = ground arith

module _ (i : String) (f : Job → Job) where
  -- A change of one row, seen through a lookup of any row.
  pub find-change_row :
      ((j : Job) → (f j).job_id ≡ j.job_id)
      → (k : String) (js : List Job)
      → find k (change_row i f js)
        ≡ (if str_eq i k then elim (find k js) [ none ↦ none | some j ↦ some (f j) ] else find k js)
  find-change_row same k js = elim (Option-cases (find i js)) [
    | inl missing ↦ ground (arith, eq_iff i k)
    | inr (j, e) ↦ ground (
      arith,
      same j,
      find-save k (f j) js,
      job_id-find i js {j = j},
      eq_iff i k,
      eq_iff (f j).job_id k,
    )
  ]

pub jobs-cancel_job :
    (i : String) (b : Broker) (now : ℕ) (w : World)
    → (cancel_job i b now w).1.jobs ≡ change_row i (cancelled_row now) w.jobs
unfolding cancel_job
jobs-cancel_job i b now w = elim (Option-cases (find i w.jobs)) [
  | inl missing ↦ ground arith
  | inr (j, e) ↦ ground (arith, save-find i w.jobs {j = j})
]

pub job_id-updated_row :
    (u : JobStatusUpdate) (now : ℕ) (j : Job) → (updated_row u now j).job_id ≡ j.job_id
job_id-updated_row u now j = ground arith

pub job_id-cancelled_row : (now : ℕ) (j : Job) → (cancelled_row now j).job_id ≡ j.job_id
job_id-cancelled_row now j = ground arith
