-- ===== src/Job/Lifecycle.antt =====
-- The life of a job as an abstract machine, over its status and the retries it has used, and that
-- the service follows it.
use dhp.Prelude.{
  ℕ, ◌+◌, ◌≤◌, ◌<◌, String, false, Option, some, List, [], ◌∷◌, ◌≡◌, ◌≢◌, inl, inr, refl, arith,
  eq_iff, str_eq, Option-cases, Bool-cases, ltb,
}
use dhp.Kafka.{Broker}
use dhp.Security.{Tokens}
use dhp.Job.{
  Job, JobStatus, pending, queued, provisioning, running, success, failed, cancelled, dead,
  JobStatusUpdate, JobCreateRequest, accepts,
}
use dhp.Job.Table.{find}
use dhp.Job.Service.{World, create_job, is_terminal, reported}
use dhp.Job.Router.{Call, submit, get, cancel, update_status, guard, endpoint, handle, serve}
use dhp.Job.Effects.{updated_row, row_after, cancelled_row, jobs-create_job_clash}
use dhp.Job.Submit.{find-create_job}
use dhp.Job.Retry.{find-update_job_status}
use dhp.Job.Cancel.{find-cancel_job}

pub record Phase : Type 0 where
  pub status : JobStatus
  pub retries : ℕ

-- One step of a job with the retry budget `budget`. A report may come in every state.
pub data Step (budget : ℕ) (p : Phase) : Phase → Type 0 where
  report : (s : JobStatus) → s ≢ failed → Step budget p (record p { status = s })
  retry : p.retries < budget → Step budget p (record { status = queued; retries = p.retries + 1 })
  bury : budget ≤ p.retries → Step budget p (record p { status = dead })
  cancel_active : is_terminal p.status ≡ false → Step budget p (record p { status = cancelled })

pub data Steps (budget : ℕ) (p : Phase) : Phase → Type 0 where
  here : Steps budget p p
  next : {q r : Phase} → Steps budget p q → Step budget q r → Steps budget p r

abbrev pub phase : Job → Phase
phase j = record { status = j.status; retries = j.retry_count }

-- What was submitted, which no later request changes.
pub record SameJob (j j' : Job) : Type 0 where
  pub job_id : j'.job_id ≡ j.job_id
  pub job_name : j'.job_name ≡ j.job_name
  pub job_type : j'.job_type ≡ j.job_type
  pub spark_config : j'.spark_config ≡ j.spark_config
  pub entrypoint : j'.entrypoint ≡ j.entrypoint
  pub arguments : j'.arguments ≡ j.arguments
  pub submitted_by : j'.submitted_by ≡ j.submitted_by
  pub submitted_at : j'.submitted_at ≡ j.submitted_at
  pub max_retries : j'.max_retries ≡ j.max_retries

abbrev pub Moves : Job → Job → Type 0
Moves j j' = SameJob j j' × Steps j.max_retries (phase j) (phase j')

pub Moves-refl : (j : Job) → Moves j j
Moves-refl j = (ground arith, here)

one : {budget : ℕ} {p q : Phase} → Step budget p q → Steps budget p q
one s = next here s

updated_row-Steps :
    (s : JobStatus) (u : JobStatusUpdate) (now : ℕ) (j : Job)
    → u.status ≡ s
    → Steps j.max_retries (phase j) (phase (row_after s (reported u now j)))
updated_row-Steps failed u now j e = elim (Bool-cases (ltb j.retry_count j.max_retries)) [
  | inl room ↦ rw room (one (retry (ground arith)))
  | inr full ↦ rw full (one (bury (ground arith)))
]
updated_row-Steps pending u now j e = one (rw e (report pending (λ p. cc)))
updated_row-Steps queued u now j e = one (rw e (report queued (λ p. cc)))
updated_row-Steps provisioning u now j e = one (rw e (report provisioning (λ p. cc)))
updated_row-Steps running u now j e = one (rw e (report running (λ p. cc)))
updated_row-Steps success u now j e = one (rw e (report success (λ p. cc)))
updated_row-Steps cancelled u now j e = one (rw e (report cancelled (λ p. cc)))
updated_row-Steps dead u now j e = one (rw e (report dead (λ p. cc)))

updated_row-Moves : (u : JobStatusUpdate) (now : ℕ) (j : Job) → Moves j (updated_row u now j)
updated_row-Moves u now j = (ground arith, updated_row-Steps u.status u now j refl)

cancelled_row-Moves : (now : ℕ) (j : Job) → Moves j (cancelled_row now j)
cancelled_row-Moves now j = elim (Bool-cases (is_terminal j.status)) [
  | inl t ↦ rw t (Moves-refl j)
  | inr t ↦ rw t (ground arith, one (cancel_active t))
]

join : {budget : ℕ} {p q r : Phase} → Steps budget p q → Steps budget q r → Steps budget p r
join s here = s
join s (next t u) = next (join s t) u

pub Moves-trans : (i j k : Job) → Moves i j → Moves j k → Moves i k
Moves-trans i j k (same, steps) (same', steps') =
    (ground arith, join steps (rw same.max_retries at steps'))

-- The row of job `k` is still there after one request, and has moved along.
abbrev pub Follows : String → Job → World → Type 0
Follows k j w = (j' : Job) × (find k w.jobs ≡ some j') × Moves j j'

pub create_job-Follows :
    (i : String) (now : ℕ) (b : Broker) (r : JobCreateRequest) (w : World) (k : String) (j : Job)
    → find k w.jobs ≡ some j
    → Follows k j (create_job i now b r w).1
create_job-Follows i now b r w k j there = elim (Option-cases (find i w.jobs)) [
  | inl fresh ↦ (j, ground (arith, find-create_job i now b r w k fresh, eq_iff i k), Moves-refl j)
  | inr (j', clash) ↦
      (j, ground (arith, jobs-create_job_clash i now b r w {j = j'} clash), Moves-refl j)
]

pub endpoint-Follows :
    (c : Call) (w : World) (k : String) (j : Job)
    → find k w.jobs ≡ some j
    → Follows k j (endpoint c w).1
endpoint-Follows (submit i now b r) w k j there = elim (Bool-cases (accepts r)) [
  | inl ok ↦ rw ok (create_job-Follows i now b r w k j there)
  | inr bad ↦ rw bad (j, there, Moves-refl j)
]
endpoint-Follows (get i) w k j there = (j, there, Moves-refl j)
endpoint-Follows (cancel i now b) w k j there = elim (Bool-cases (str_eq i k)) [
  | inl same ↦
      (cancelled_row now j, ground (arith, find-cancel_job i b now w k), cancelled_row-Moves now j)
  | inr other ↦ (j, ground (arith, find-cancel_job i b now w k), Moves-refl j)
]
endpoint-Follows (update_status i now b u) w k j there = elim (Bool-cases (str_eq i k)) [
  | inl same ↦ (
    updated_row u now j,
    ground (arith, find-update_job_status i b now u w k),
    updated_row-Moves u now j,
  )
  | inr other ↦ (j, ground (arith, find-update_job_status i b now u w k), Moves-refl j)
]

handle-Follows :
    (t : Tokens) (header : Option String) (c : Call) (w : World) (k : String) (j : Job)
    → find k w.jobs ≡ some j
    → Follows k j (handle t header c w).1
unfolding handle
handle-Follows t header c w k j there = elim (Option-cases (guard t c header)) [
  | inl passed ↦ rw (passed, handle) (endpoint-Follows c w k j there)
  | inr (code, refused) ↦ rw (refused, handle) (j, there, Moves-refl j)
]

-- Whatever requests are served, a job that is in the table stays in it, what was submitted never
-- changes, and its status and retry counter move by the steps of the abstract machine alone.
pub serve-Steps :
    (t : Tokens) (calls : List (Option String × Call)) (w : World) (k : String) (j : Job)
    → find k w.jobs ≡ some j
    → (j' : Job) × (find k (serve t calls w).jobs ≡ some j') × Moves j j'
unfolding serve
serve-Steps t [] w k j there = (j, there, Moves-refl j)
serve-Steps t ((header, c) ∷ rest) w k j there =
    let (j₁, there₁, moved) = handle-Follows t header c w k j there in
    let (j₂, there₂, moved') = serve-Steps t rest (handle t header c w).1 k j₁ there₁ in
    (j₂, there₂, Moves-trans j j₁ j₂ moved moved')
