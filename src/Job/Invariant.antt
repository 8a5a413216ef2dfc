-- ===== src/Job/Invariant.antt =====
-- What every row of the table satisfies, whatever requests the job service has served.
use dhp.Prelude.{
  ℕ, ◌≤◌, String, Bool, true, Option, List, [], ◌∷◌, ◌≡◌, ◌≢◌, arith, is_some, All, All-append,
  Option-cases, Bool-cases, inl, inr,
}
use dhp.Kafka.{Broker}
use dhp.Security.{Tokens}
use dhp.Job.{Job, failed, running, JobCreateRequest, JobStatusUpdate, accepts}
use dhp.Job.Table.{
  find, add, HasDistinctIds, save-HasDistinctIds, add-HasDistinctIds, All-save, All-find,
}
use dhp.Job.Service.{World, is_terminal, new_job, create_job}
use dhp.Job.Effects.{
  updated_row, cancelled_row, created_row, is_sent, change_row, jobs-create_job,
  jobs-create_job_clash, jobs-update_job_status, jobs-cancel_job,
}
use dhp.Job.Router.{Call, submit, get, cancel, update_status, guard, endpoint, handle, serve}

-- The retry counter stays within the budget, which is at most ten; FAILED is never stored; a row in
-- a terminal state has its completion time, and a running one its start.
pub record IsValidJob (j : Job) : Type 0 where
  pub within_budget : j.retry_count ≤ j.max_retries
  pub small_budget : j.max_retries ≤ 10
  pub not_failed : j.status ≢ failed
  pub completed : is_terminal j.status ≡ true → is_some j.completed_at ≡ true
  pub started : j.status ≡ running → is_some j.started_at ≡ true

pub record IsValidTable (js : List Job) : Type 0 where
  pub rows : All IsValidJob js
  pub distinct : HasDistinctIds js

new_job-IsValidJob :
    (i : String) (now : ℕ) (r : JobCreateRequest) → accepts r ≡ true → IsValidJob (new_job i now r)
unfolding accepts
new_job-IsValidJob i now r h = ground arith

updated_row-IsValidJob :
    (u : JobStatusUpdate) (now : ℕ) (j : Job) → IsValidJob j → IsValidJob (updated_row u now j)
updated_row-IsValidJob u now j v = ground arith

cancelled_row-IsValidJob : (now : ℕ) (j : Job) → IsValidJob j → IsValidJob (cancelled_row now j)
cancelled_row-IsValidJob now j v = ground arith

created_row-IsValidJob : (sent : Bool) (j : Job) → IsValidJob j → IsValidJob (created_row sent j)
created_row-IsValidJob sent j v = ground arith

change_row-IsValidTable :
    (i : String) (f : Job → Job) (js : List Job)
    → ((j : Job) → IsValidJob j → IsValidJob (f j))
    → IsValidTable js
    → IsValidTable (change_row i f js)
change_row-IsValidTable i f js keeps v = elim (Option-cases (find i js)) [
  | inl missing ↦ rw (missing, change_row) v
  | inr (j, e) ↦
      rw (e, change_row)
        (record {
          rows = All-save IsValidJob (f j) js (keeps j (All-find IsValidJob i js v.rows e)) v.rows;
          distinct = save-HasDistinctIds (f j) js v.distinct;
        })
]

create_job-IsValidTable :
    (i : String) (now : ℕ) (b : Broker) (r : JobCreateRequest) (w : World)
    → accepts r ≡ true
    → IsValidTable w.jobs
    → IsValidTable (create_job i now b r w).1.jobs
create_job-IsValidTable i now b r w ok v = elim (Option-cases (find i w.jobs)) [
  | inr (j, clash) ↦ rw (jobs-create_job_clash i now b r w clash) v
  | inl fresh ↦
      let j = new_job i now r in
      let valid = new_job-IsValidJob i now r ok in
      let j' = created_row (is_sent i now b r w) j in
      rw (jobs-create_job i now b r w fresh) (record {
        rows =
            All-save IsValidJob j' (add j w.jobs) (created_row-IsValidJob _ j valid)
              (All-append IsValidJob w.jobs (j ∷ []) v.rows (valid, tt));
        distinct =
            save-HasDistinctIds j' (add j w.jobs) (add-HasDistinctIds j w.jobs fresh v.distinct);
      })
]

pub endpoint-IsValidTable :
    (c : Call) (w : World) → IsValidTable w.jobs → IsValidTable (endpoint c w).1.jobs
endpoint-IsValidTable (submit i now b r) w v = elim (Bool-cases (accepts r)) [
  | inl ok ↦ rw ok (create_job-IsValidTable i now b r w ok v)
  | inr bad ↦ rw bad v
]
endpoint-IsValidTable (get i) w v = v
endpoint-IsValidTable (cancel i now b) w v =
    rw jobs-cancel_job
      (change_row-IsValidTable i (cancelled_row now) w.jobs (cancelled_row-IsValidJob now) v)
endpoint-IsValidTable (update_status i now b u) w v =
    rw jobs-update_job_status
      (change_row-IsValidTable i (updated_row u now) w.jobs (updated_row-IsValidJob u now) v)

handle-IsValidTable :
    (t : Tokens) (header : Option String) (c : Call) (w : World)
    → IsValidTable w.jobs
    → IsValidTable (handle t header c w).1.jobs
unfolding handle
handle-IsValidTable t header c w v = elim (Option-cases (guard t c header)) [
  | inl passed ↦ rw (passed, handle) (endpoint-IsValidTable c w v)
  | inr (code, refused) ↦ rw (refused, handle) v
]

-- From a valid table, whatever the requests, their tokens, the clock and the broker, the table stays
-- valid: every row keeps `IsValidJob`, and no two rows have one id.
pub serve-IsValidTable :
    (t : Tokens) (calls : List (Option String × Call)) (w : World)
    → IsValidTable w.jobs
    → IsValidTable (serve t calls w).jobs
unfolding serve
serve-IsValidTable t [] w v = v
serve-IsValidTable t ((header, c) ∷ rest) w v =
    serve-IsValidTable t rest (handle t header c w).1 (handle-IsValidTable t header c w v)
