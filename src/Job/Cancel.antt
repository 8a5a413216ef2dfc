-- ===== src/Job/Cancel.antt =====
-- `cancel_job` and the reports that come after it.
use dhp.Prelude.{
  ℕ, ◌<◌, String, true, false, Option, none, some, ◌∷◌, ◌≡◌, inl, inr, refl, ap, arith, eq_refl,
  str_eq, if◌then◌else◌, Bool-cases,
}
use dhp.Kafka.{Broker, Message, send_job_event}
use dhp.Kafka.Start.{answer_of, kept_by, send_job_event_outcome, stored-send_job_event}
use dhp.Job.{Job, queued, failed, cancelled, JobStatusUpdate, JobResponse}
use dhp.Job.Table.{find, find-save, job_id-find}
use dhp.Job.Service.{
  World, job_topic, status_topic, cancel_event, retry_event, is_terminal, response, get_job,
  update_job_status, cancel_job,
}
use dhp.Job.Effects.{
  find-change_row, jobs-cancel_job, cancelled_row, job_id-cancelled_row, updated_row,
}
use dhp.Job.Retry.{find-update_job_status}

pub find-cancel_job :
    (i : String) (b : Broker) (now : ℕ) (w : World) (k : String)
    → find k (cancel_job i b now w).1.jobs ≡ (
        if str_eq i k
        then elim (find k w.jobs) [ none ↦ none | some j ↦ some (cancelled_row now j) ]
        else find k w.jobs)
find-cancel_job i b now w k =
    rw jobs-cancel_job (find-change_row i (cancelled_row now) (job_id-cancelled_row now) k w.jobs)

-- The event that a retry sends.
abbrev pub retry_message : JobStatusUpdate → ℕ → Job → Message
retry_message u now j = record {
  topic = job_topic;
  key = j.job_id;
  value = retry_event (updated_row u now j);
}

module _ (i : String) (b : Broker) (now : ℕ) (w : World) {j : Job} where
  -- A job in a terminal state is left as it is: the reply is its row, and nothing is sent or counted.
  pub cancel_job_terminal :
      find i w.jobs ≡ some j
      → is_terminal j.status ≡ true
      → cancel_job i b now w ≡ (some (response j), w)
  unfolding cancel_job get_job
  cancel_job_terminal there t = ground (arith, job_id-find i w.jobs {j = j} there)

  -- Any other job is CANCELLED with its completion time, which the reply shows, whatever the broker
  -- answers, and a cancellation for its container is sent to the status topic: it is stored where the
  -- broker acknowledges it and also where that acknowledgement is lost, and nothing is stored where
  -- it is rejected or the producer does not start.
  pub cancel_job_active :
      find i w.jobs ≡ some j
      → is_terminal j.status ≡ false
      → let (reply, w') = cancel_job i b now w in
        let j' = record j { status = cancelled; completed_at = some now } in
        (reply ≡ some (response j'))
        × (find i w'.jobs ≡ some j')
        × (w'.kafka.stored
            ≡ kept_by
                (answer_of b w.kafka)
                (record { topic = status_topic; key = i; value = cancel_event j' })
                w.kafka.stored)
  unfolding cancel_job get_job
  cancel_job_active there t =
      let j' = record j { status = cancelled; completed_at = some now } in
      let same = job_id-find i w.jobs {j = j} there in
      let m : Message = record { topic = status_topic; key = j.job_id; value = cancel_event j' } in
      (
        ground (arith, same, find-save i j' w.jobs, eq_refl i),
        ground (arith, same, find-save i j' w.jobs, eq_refl i),
        ground (arith, same, stored-send_job_event b m w.kafka),
      )

-- A second cancellation, by whatever clock and broker, changes nothing: no row, no event, no metric.
cancel_job_twice :
    (i : String) (b b' : Broker) (now now' : ℕ) (w : World) (j : Job)
    → find i w.jobs ≡ some j
    → (cancel_job i b' now' (cancel_job i b now w).1).1 ≡ (cancel_job i b now w).1
cancel_job_twice i b b' now now' w j there = elim (Bool-cases (is_terminal j.status)) [
  | inl t ↦
      rw (cancel_job_terminal i b now w there t)
        (ap (λ (r : Option JobResponse × World). r.1) (cancel_job_terminal i b' now' w there t))
  | inr t ↦
      let w' = (cancel_job i b now w).1 in
      let (reply, there', sent) = cancel_job_active i b now w there t in
      ap (λ (r : Option JobResponse × World). r.1) (cancel_job_terminal i b' now' w' there' refl)
]

-- A terminal state does not hold against a report: a job that was cancelled, or ended in another
-- terminal state, and has retries left is QUEUED again by a report of FAILED, and the event that
-- launches it again is stored when the broker acknowledges it.
pub terminal_job_requeued :
    (i : String) (b : Broker) (now : ℕ) (u : JobStatusUpdate) (w : World) (j : Job)
    → find i w.jobs ≡ some j
    → is_terminal j.status ≡ true
    → j.retry_count < j.max_retries
    → u.status ≡ failed
    → (send_job_event b (retry_message u now j) w.kafka).0 ≡ true
    → let w' = (update_job_status i b now u w).1 in
      (j' : Job) × (find i w'.jobs ≡ some j')
      × (j'.status ≡ queued)
      × (w'.kafka.stored ≡ retry_message u now j ∷ w.kafka.stored)
unfolding update_job_status
terminal_job_requeued i b now u w j there t room f sent = (
  updated_row u now j,
  ground (arith, eq_refl i, find-update_job_status i b now u w i),
  ground arith,
  ground (arith, send_job_event_outcome b (retry_message u now j) w.kafka),
)
