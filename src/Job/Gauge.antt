-- ===== src/Job/Gauge.antt =====
-- The gauge `dhp_jobs_active`, as the difference between its increments and its decrements.
use dhp.Prelude.{ℕ, ◌+◌, String, Bool, true, false, some, ◌≡◌, arith, count, eq_refl, if◌then◌else◌}
use dhp.Kafka.{Broker}
use dhp.Job.{Job, JobStatusUpdate}
use dhp.Job.Table.{find}
use dhp.Job.Service.{
  World, Metric, jobs_active_inc, jobs_active_dec, is_terminal, update_job_status, cancel_job,
}
use dhp.Job.Cancel.{find-cancel_job}
use dhp.Job.Effects.{updated_row, cancelled_row}

abbrev is_inc : Metric → Bool
is_inc jobs_active_inc = true
is_inc _ = false

abbrev is_dec : Metric → Bool
is_dec jobs_active_dec = true
is_dec _ = false

abbrev pub increments : World → ℕ
increments w = count is_inc w.metrics

abbrev pub decrements : World → ℕ
decrements w = count is_dec w.metrics

module _ (i : String) (b : Broker) (now : ℕ) (w : World) (j : Job) where
  -- A status update lowers the gauge by one exactly when it leaves the row in a terminal state, by
  -- the report or because the retries are used up; else the gauge stays, also across a retry.
  pub gauge-update_job_status :
      (u : JobStatusUpdate)
      → find i w.jobs ≡ some j
      → let w' = (update_job_status i b now u w).1 in
        increments w + decrements w'
        ≡ (if is_terminal (updated_row u now j).status then 1 else 0) + decrements w + increments w'
  unfolding update_job_status
  gauge-update_job_status u there = ground arith

  -- A cancellation of a job that is not in a terminal state ends it and records no metric at all: the
  -- gauge stays where it is, so that a job that it counts stays counted as active.
  pub gauge-cancel_job :
      find i w.jobs ≡ some j
      → is_terminal j.status ≡ false
      → let w' = (cancel_job i b now w).1 in
        (w'.metrics ≡ w.metrics)
        × ((j' : Job) × (find i w'.jobs ≡ some j') × (is_terminal j'.status ≡ true))
  unfolding cancel_job
  gauge-cancel_job there t = (
    ground arith,
    (cancelled_row now j, ground (arith, find-cancel_job i b now w i, eq_refl i), ground arith),
  )
