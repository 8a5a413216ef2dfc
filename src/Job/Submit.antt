-- ===== src/Job/Submit.antt =====
-- `create_job`: the row, the reply and the event of a submission, by what the broker answers.
use dhp.Prelude.{
  ℕ, String, true, false, none, some, List, ◌∷◌, ◌≡◌, refl, arith, eq_iff, eq_refl, str_eq,
  if◌then◌else◌,
}
use dhp.Kafka.{Broker, Message, Delivery, acknowledged, rejected, unacknowledged, send_job_event}
use dhp.Kafka.Start.{answer_of}
use dhp.Job.{Job, queued, pending, JobCreateRequest, JobResponse}
use dhp.Job.Table.{find, add, find-save, find-add}
use dhp.Job.Service.{
  World, new_job, job_event, job_topic, create_job, created, enqueue_error, queued_message,
  not_queued_message, response,
}
use dhp.Job.Effects.{created_row, is_sent, jobs-create_job}

abbrev pub submission : String → ℕ → JobCreateRequest → Message
submission i now r = record { topic = job_topic; key = i; value = job_event (new_job i now r) }

-- A submission that is queued: the row and the reply say QUEUED, and the event is stored.
pub record IsQueued (i : String) (now : ℕ) (r : JobCreateRequest) (w : World) (reply : JobResponse)
    (w' : World) : Type 0 where
  pub row : find i w'.jobs ≡ some (record (new_job i now r) { status = queued })
  pub status : reply.status ≡ queued
  pub message : reply.message ≡ some queued_message
  pub error_message : reply.error_message ≡ none
  pub stored : w'.kafka.stored ≡ submission i now r ∷ w.kafka.stored

-- A submission that is not: the row stays PENDING with the error, which the reply repeats. `stored` is what
-- the broker holds after it.
pub record IsPending (i : String) (now : ℕ) (r : JobCreateRequest) (stored : List Message)
    (reply : JobResponse) (w' : World) : Type 0 where
  pub row :
      find i w'.jobs
      ≡ some (record (new_job i now r) { status = pending; error_message = some enqueue_error })
  pub status : reply.status ≡ pending
  pub message : reply.message ≡ some not_queued_message
  pub error_message : reply.error_message ≡ some enqueue_error
  pub kafka : w'.kafka.stored ≡ stored

-- What a submission leaves by what comes of its event: queued exactly when the broker acknowledges it, and
-- pending else, where the event is stored all the same when the acknowledgement alone is lost.
abbrev pub IsSubmitted :
    Delivery → String → ℕ → JobCreateRequest → World → JobResponse → World → Type 0
IsSubmitted acknowledged i now r w = IsQueued i now r w
IsSubmitted rejected i now r w = IsPending i now r w.kafka.stored
IsSubmitted unacknowledged i now r w = IsPending i now r (submission i now r ∷ w.kafka.stored)

module _ (i : String) (now : ℕ) (b : Broker) (r : JobCreateRequest) (w : World) where
  abbrev unsent : Job
  unsent = record (new_job i now r) { status = pending; error_message = some enqueue_error }

  pub find-create_job :
      (k : String)
      → find i w.jobs ≡ none
      → find k (create_job i now b r w).1.jobs ≡ (
          if str_eq i k
          then some (created_row (is_sent i now b r w) (new_job i now r))
          else find k w.jobs)
  find-create_job k fresh = rw (jobs-create_job i now b r w fresh) (
      ground (
        arith,
        find-save k (created_row (is_sent i now b r w) (new_job i now r))
            (add (new_job i now r) w.jobs),
        find-add k (new_job i now r) w.jobs,
        eq_iff i k,
      ))

  -- With a fresh id a submission always replies. Where the broker acknowledges its event, the row and the
  -- reply say QUEUED and the event is stored; where the broker rejects it or the producer does not start, both
  -- say PENDING with the error and nothing is stored; where the acknowledgement is lost, both say PENDING
  -- with the error although the event is stored.
  pub create_job_outcome :
      find i w.jobs ≡ none
      → (reply : JobResponse) × ((create_job i now b r w).0 ≡ some reply)
        × IsSubmitted (answer_of b w.kafka) i now r w reply (create_job i now b r w).1
  unfolding create_job response send_job_event
  create_job_outcome fresh = go (answer_of b w.kafka) refl
    where
      go :
          (d : Delivery)
          → answer_of b w.kafka ≡ d
          → (reply : JobResponse) × ((create_job i now b r w).0 ≡ some reply)
            × IsSubmitted d i now r w reply (create_job i now b r w).1
      go acknowledged e = (
        created true (record (new_job i now r) { status = queued }),
        ground arith,
        record {
          row = ground (arith, eq_refl i, find-create_job i fresh);
          status = refl;
          message = refl;
          error_message = refl;
          stored = ground arith;
        },
      )
      go rejected e = (
        created false unsent,
        ground arith,
        record {
          row = ground (arith, eq_refl i, find-create_job i fresh);
          status = refl;
          message = refl;
          error_message = refl;
          kafka = ground arith;
        },
      )
      go unacknowledged e = (
        created false unsent,
        ground arith,
        record {
          row = ground (arith, eq_refl i, find-create_job i fresh);
          status = refl;
          message = refl;
          error_message = refl;
          kafka = ground arith;
        },
      )
