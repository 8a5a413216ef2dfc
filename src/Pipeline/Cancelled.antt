-- ===== src/Pipeline/Cancelled.antt =====
-- A job that services/job-service/app/services/job_service.py cancels before the consumer of
-- services/orchestrator/app/consumer.py has read its event.
use dhp.Prelude.{
  ℕ, suc, ◌+◌, String, true, Option, none, some, List, [], ◌∷◌, ◌≡◌, refl, ap, ◌∙◌, arith, eq_refl,
  truthy, length, count, count-append,
}
use dhp.Prelude.Int.{pos}
use dhp.Prelude.Dict.{Dict}
use dhp.Json.{Json, int}
use dhp.Kafka.{
  Broker, Message, Delivery, started, acknowledged, rejected, unacknowledged, send_job_event,
}
use dhp.Kafka.Start.{answer_of, kept_by}
use dhp.Job.{Job, provisioning, cancelled, JobCreateRequest, JobStatusUpdate}
use dhp.Job.Table.{find}
use dhp.Job.Service.{
  World, new_job, status_topic, cancel_event, create_job, cancel_job, update_job_status,
}
use dhp.Job.Effects.{created_row, is_sent, updated_row}
use dhp.Job.Submit.{submission, find-create_job}
use dhp.Job.Retry.{find-update_job_status}
use dhp.Job.Cancel.{cancel_job_active}
use dhp.Orchestrator.{Settings, Python, int_field}
use dhp.Orchestrator.Ecs.{Answer, LaunchError, launched, launch_of}
use dhp.Orchestrator.Consumer.{
  Action, put_status, run_task, count_launch, attempts, process_message,
}
use dhp.Orchestrator.Launches.{is_run, loop_launched}
use dhp.Pipeline.{update_of, submitted, get_elem?, Platform, next_round}
use dhp.Pipeline.Events.{IsRead, events-IsRead, request_of}
use dhp.Pipeline.Callbacks.{submitted-next}

-- What the consumer has done for the event of a job that its first attempt launches.
pub record IsLaunched (i arn : String) (p q : Platform) : Type 0 where
  pub row : Job
  pub there : find i q.world.jobs ≡ some row
  pub status : row.status ≡ provisioning
  pub container : row.container_id ≡ some arn
  pub runs : count is_run q.actions ≡ count is_run p.actions + 1

module _ (s : Settings) (py : Python) (describe : Option LaunchError → String) (b : Broker)
    (answers : ℕ → ℕ → Answer) (now : ℕ) where
  abbrev pub launch : String → Job → ℕ → String → List Action
  launch i source n arn =
      put_status i (record { status = "PROVISIONING"; container_id = none; error_message = none })
      ∷ run_task (request_of s py source n)
      ∷ put_status i
          (record { status = "PROVISIONING"; container_id = some arn; error_message = none })
      ∷ count_launch "success"
      ∷ []

  pub process_message-launch :
      (event : Dict Json) (k : ℕ) (source : Job) (n left : ℕ) (arn : String)
      → IsRead s py source n event
      → source.max_retries ≡ suc left
      → launch_of (answers k 1) ≡ launched arn
      → truthy arn ≡ true
      → process_message s py describe event (answers k) ≡ some (launch source.job_id source n arn)
  unfolding process_message
  process_message-launch event k source n left arn read budget launches full =
      let loop =
        loop_launched s py describe event (answers k) read.request (pos (suc left)) left 1 none arn
          launches in
      let named : attempts s py describe event (answers k) (pos (suc left)) (suc left) 1 none
          ≡ launch source.job_id source n arn =
        rw (read.id, full) at loop in
      let room : int_field py "max_retries" s.default_max_retries event ≡ some (pos (suc left)) =
        read.budget ∙ ap (λ m. some (pos m)) budget in
      rw (room, process_message) (ap some named)

  updated :
      (i : String) (u : JobStatusUpdate) (w : World) {j : Job}
      → find i w.jobs ≡ some j
      → find i (update_job_status i b now u w).1.jobs ≡ some (updated_row u now j)
  updated i u w there = rw find-update_job_status (ground (arith, eq_refl i))

  launch-IsLaunched :
      (p : Platform) (m : Message) (source j : Job) (n left : ℕ) (arn : String)
      → get_elem? (submitted p.world.kafka.stored) p.offset ≡ some m
      → IsRead s py source n m.value
      → source.max_retries ≡ suc left
      → launch_of (answers p.offset 1) ≡ launched arn
      → truthy arn ≡ true
      → find source.job_id p.world.jobs ≡ some j
      → IsLaunched source.job_id arn p (next_round s py describe b answers now p)
  unfolding next_round
  launch-IsLaunched p m source j n left arn next read budget launches full there =
      let i = source.job_id in
      let t = launch i source n arn in
      let done =
        process_message-launch m.value p.offset source n left arn read budget launches full in
      let bare =
        update_of provisioning
          (record { status = "PROVISIONING"; container_id = none; error_message = none }) in
      let u =
        update_of provisioning
          (record { status = "PROVISIONING"; container_id = some arn; error_message = none }) in
      let w = (update_job_status i b now bare p.world).1 in
      let first = updated i bare p.world there in
      rw (next, done, next_round)
        (record {
          row = updated_row u now (updated_row bare now j);
          there = updated i u w first;
          status = refl;
          container = rw full refl;
          runs = count-append is_run p.actions t;
        })

  -- The row of a job is still at the start of the consumer: it says CANCELLED, and the event waits.
  submitted-kept_by :
      (d : Delivery) (key : String) (value : Dict Json) (ms : List Message)
      → submitted (kept_by d (record { topic = status_topic; key = key; value = value }) ms)
        ≡ submitted ms
  submitted-kept_by acknowledged key value ms = refl
  submitted-kept_by rejected key value ms = refl
  submitted-kept_by unacknowledged key value ms = refl

  submitted-Waiting :
      (i : String) (at later : ℕ) (r : JobCreateRequest) (w : World)
      → b.delivers started ≡ acknowledged
      → find i w.jobs ≡ none
      → w.kafka.producer ≡ started
      → let w' = (cancel_job i b later (create_job i at b r w).1).1 in
        (j : Job) × (find i w'.jobs ≡ some j)
        × (j.status ≡ cancelled)
        × (get_elem? (submitted w'.kafka.stored) (length (submitted w.kafka.stored))
            ≡ some (submission i at r))
  unfolding create_job send_job_event
  submitted-Waiting i at later r w up fresh on =
      let w1 = (create_job i at b r w).1 in
      let j = created_row true (new_job i at r) in
      let sent : is_sent i at b r w ≡ true = ground arith in
      let there : find i w1.jobs ≡ some j =
        ground (arith, eq_refl i, find-create_job i at b r w i fresh) in
      let stored : w1.kafka.stored ≡ submission i at r ∷ w.kafka.stored = ground arith in
      let (next, longer) = submitted-next (submission i at r) w.kafka.stored refl in
      let (reply, there', outcome) = cancel_job_active i b later w1 there refl in
      (
        record j { status = cancelled; completed_at = some later },
        there',
        refl,
        rw (outcome, stored)
            (ap (λ ms. get_elem? ms (length (submitted w.kafka.stored)))
                (submitted-kept_by (answer_of b w1.kafka) i
                  (cancel_event (record j { status = cancelled; completed_at = some later }))
                  (submission i at r ∷ w.kafka.stored))
              ∙ next),
      )

-- A job of a budget that is not zero, with a fresh id, submitted while the producer is up and acknowledged
-- and the consumer has read all that was published, and cancelled before the consumer reads its event:
-- its row says CANCELLED, and the consumer launches it all the same when it reads the event. If the
-- first attempt launches a task, `run_task` was called once, and the row goes from CANCELLED to
-- PROVISIONING with the task's ARN. This holds where `int` of an integer is that integer.
pub cancelled_job_launched :
    (s : Settings) (py : Python) (describe : Option LaunchError → String) (b : Broker)
    (answers : ℕ → ℕ → Answer) (at later now : ℕ) (i : String) (r : JobCreateRequest) (w : World)
    (left : ℕ) (arn : String)
    → b.delivers started ≡ acknowledged
    → ((k : ℕ) → py.to_int (int (pos k)) ≡ some (pos k))
    → launch_of (answers (length (submitted w.kafka.stored)) 1) ≡ launched arn
    → truthy arn ≡ true
    → r.max_retries ≡ suc left
    → find i w.jobs ≡ none
    → w.kafka.producer ≡ started
    → let p : Platform = record {
      world = (cancel_job i b later (create_job i at b r w).1).1;
      offset = length (submitted w.kafka.stored);
      actions = [];
    } in
      (j : Job) × (find i p.world.jobs ≡ some j)
      × (j.status ≡ cancelled)
      × IsLaunched i arn p (next_round s py describe b answers now p)
cancelled_job_launched s py describe b answers at later now i r w left arn up read launches full
      budget fresh on =
    let (j, there, status, next) =
      submitted-Waiting s py describe b answers now i at later r w up fresh on in
    let source = new_job i at r in
    let (first, _, _) = events-IsRead s py source read in
    (
      j,
      there,
      status,
      launch-IsLaunched s py describe b answers now _ (submission i at r) source j 0 left arn next
          first budget launches full there,
    )
