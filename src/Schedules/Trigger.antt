-- ===== src/Schedules/Trigger.antt =====
-- `trigger_schedule` and what a manual run leaves.
use dhp.Prelude.{ℕ, String, none, some, List, ◌≡◌, refl, arith, eq_iff}
use dhp.Prelude.Rows.{find, find-save, key-find, save}
use dhp.Http.{ok}
use dhp.Kafka.{Broker}
use dhp.Kafka.Start.{answer_of}
use dhp.Job.{JobCreateRequest, JobResponse}
use dhp.Job.Table.{find as find_job}
use dhp.Job.Service.{World, create_job, response}
use dhp.Job.Submit.{IsSubmitted, create_job_outcome}
use dhp.Orchestrator.Scheduler.{ScheduledJob}
use dhp.Schedules.{Libraries, schedule_id_of, triggered, trigger_schedule}

job_id-create_job :
    (i : String) (now : ℕ) (b : Broker) (q : JobCreateRequest) (w : World) {j : JobResponse}
    → (create_job i now b q w).0 ≡ some j
    → j.job_id ≡ i
unfolding create_job response
job_id-create_job i now b q w {j} h = ground arith

module _ (l : Libraries) (sid i : String) (now later : ℕ) (b : Broker) (rows : List ScheduledJob)
    (w : World) where
  -- A manual run of a schedule whose template validates, with a fresh job id, always answers with the
  -- new job, which is submitted from the template: where the broker acknowledges the event, row and
  -- answer say QUEUED and the event is stored; where it rejects it or the producer does not start,
  -- both say PENDING and nothing is stored; where the acknowledgement is lost, both say PENDING
  -- although the event is stored. In each case the schedule's row names the run and its time and
  -- keeps every other column, the next run included.
  pub trigger_schedule_outcome :
      (r : ScheduledJob) (q : JobCreateRequest)
      → find schedule_id_of sid rows ≡ some r
      → l.model_validate r.job_template ≡ some q
      → find_job i w.jobs ≡ none
      → let (reply, rows', w') = trigger_schedule l sid i now later b rows w in
        (j : JobResponse) × (reply ≡ ok j)
        × IsSubmitted (answer_of b w.kafka) i now q w j w'
        × (find schedule_id_of sid rows'
            ≡ some (record r { last_run_at = some later; last_run_job_id = some i }))
  unfolding trigger_schedule
  trigger_schedule_outcome r q found valid fresh =
      let (j, made, outcome) = create_job_outcome i now b q w fresh in
      let same = job_id-create_job i now b q w made in
      let ran : trigger_schedule l sid i now later b rows w
          ≡ (ok j, save schedule_id_of (triggered l i later r) rows, (create_job i now b q w).1) =
        ground arith in
      rw ran (
        j,
        refl,
        outcome,
        ground (
          arith,
          find-save schedule_id_of sid (triggered l i later r) rows,
          key-find schedule_id_of sid rows {r = r},
          eq_iff r.schedule_id sid,
        ),
      )
