-- ===== src/Pipeline/Callbacks.antt =====
-- What the callbacks of one event of a job that ECS refuses leave in the job service.
use dhp.Prelude.{
  ℕ, zero, suc, ◌+◌, String, true, Option, none, some, List, [], ◌∷◌, ◌++◌, ◌≡◌, refl, sym, ◌∙◌, ap,
  subst, arith, if◌then◌else◌, str_eq, eq_refl, truthy?, ltb, length, count, length-append,
}
use dhp.Prelude.Int.{ℤ, pos, pos_part}
use dhp.Prelude.Dict.{Dict}
use dhp.Json.{Json}
use dhp.Kafka.{Broker, Message, started, acknowledged, send_job_event}
use dhp.Job.{Job, provisioning, failed, queued, dead, JobStatusUpdate}
use dhp.Job.Table.{find, job_id-find}
use dhp.Job.Service.{World, job_topic, retry_event, update_job_status}
use dhp.Job.Effects.{updated_row}
use dhp.Job.Retry.{find-update_job_status}
use dhp.Orchestrator.{Settings, Python, int_field}
use dhp.Orchestrator.Ecs.{Answer, LaunchError, RunTask, run_task_request, launch_of}
use dhp.Orchestrator.Consumer.{
  Action, event_id, err_msg, attempts, exhausted, backoff, process_message,
}
use dhp.Orchestrator.Launches.{is_run, is_dlq, IsRefused, loop_refused, tried}
use dhp.Orchestrator.DeadLetters.{process_message_dead_letters}
use dhp.Pipeline.{callback, callbacks, update_of, submitted, get_elem?}

last_elem {ℓ} : {A : Type ℓ} (xs : List A) (x : A) → get_elem? (xs ++ x ∷ []) (length xs) ≡ some x
last_elem [] x = refl
last_elem (y ∷ xs) x = last_elem xs x

pub past_end {ℓ} : {A : Type ℓ} (xs : List A) → get_elem? xs (length xs) ≡ none
past_end [] = refl
past_end (y ∷ xs) = past_end xs

module _ (b : Broker) (now : ℕ) (i : String) where
  -- The row is there with its budget, and Kafka holds what it held.
  record Waits (j : Job) (w w' : World) : Type 0 where
    row : Job
    there : find i w'.jobs ≡ some row
    retries : row.retry_count ≡ j.retry_count
    budget : row.max_retries ≡ j.max_retries
    kafka : w'.kafka ≡ w.kafka

  provisioned :
      (u : JobStatusUpdate) (w : World) {j : Job}
      → u.status ≡ provisioning
      → find i w.jobs ≡ some j
      → Waits j w (update_job_status i b now u w).1
  unfolding update_job_status
  provisioned u w {j} prov there = record {
    row = updated_row u now j;
    there = rw find-update_job_status (ground (arith, eq_refl i));
    retries = ground arith;
    budget = ground arith;
    kafka = ground arith;
  }

  -- The FAILED callback that ends the processing.
  pub record Ends (j : Job) (w w' : World) : Type 0 where
    pub row : Job
    pub there : find i w'.jobs ≡ some row
    pub retries :
        row.retry_count
        ≡ (if ltb j.retry_count j.max_retries then j.retry_count + 1 else j.retry_count)
    pub budget : row.max_retries ≡ j.max_retries
    pub status : row.status ≡ (if ltb j.retry_count j.max_retries then queued else dead)
    pub producer : w'.kafka.producer ≡ started
    pub stored : w'.kafka.stored ≡ (
        if ltb j.retry_count j.max_retries
        then (record { topic = job_topic; key = i; value = retry_event row }) ∷ w.kafka.stored
        else w.kafka.stored)

  Ends-Waits : {j : Job} {w w' w'' : World} (q : Waits j w w') → Ends q.row w' w'' → Ends j w w''
  Ends-Waits {w = w} {w' = w'} q e = record {
    row = e.row;
    there = e.there;
    retries = ground (arith, q.retries, q.budget, e.retries);
    budget = e.budget ∙ q.budget;
    status = ground (arith, q.retries, q.budget, e.status);
    producer = e.producer;
    stored =
        let kept : w'.kafka.stored ≡ w.kafka.stored = ap (λ k. k.stored) q.kafka in
        ground (arith, q.retries, q.budget, e.stored);
  }

  failure-Ends :
      (u : JobStatusUpdate) (w : World) {j : Job}
      → u.status ≡ failed
      → b.delivers started ≡ acknowledged
      → w.kafka.producer ≡ started
      → find i w.jobs ≡ some j
      → Ends j w (update_job_status i b now u w).1
  unfolding update_job_status send_job_event
  failure-Ends u w {j} fails up on there = record {
    row = updated_row u now j;
    there = rw find-update_job_status (ground (arith, eq_refl i));
    retries = ground arith;
    budget = ground arith;
    status = ground arith;
    producer = ground arith;
    stored = ground (arith, job_id-find i w.jobs {j = j});
  }

  callbacks-append :
      (xs ys : List Action) (w : World)
      → callbacks b now (xs ++ ys) w ≡ callbacks b now ys (callbacks b now xs w)
  callbacks-append [] ys w = refl
  callbacks-append (x ∷ xs) ys w = callbacks-append xs ys (callback b now x w)

  callbacks-backoff : (attempt n : ℕ) (w : World) → callbacks b now (backoff attempt n) w ≡ w
  callbacks-backoff attempt n w = ground arith

  module _ (s : Settings) (py : Python) (describe : Option LaunchError → String) (event : Dict Json)
      (answers : ℕ → Answer) {request : RunTask}
      (builds : run_task_request s py event ≡ some request) (named : event_id py event ≡ i)
      (all : (k : ℕ) → IsRefused (launch_of (answers k))) where
    abbrev provisioning_update : JobStatusUpdate
    provisioning_update =
        update_of provisioning
          (record { status = "PROVISIONING"; container_id = none; error_message = none })

    callbacks-tried :
        (n : ℤ) (attempt : ℕ) (w : World)
        → callbacks b now (tried s py describe event answers builds n attempt) w
          ≡ (update_job_status i b now provisioning_update w).1
    callbacks-tried n attempt w =
        callbacks-backoff attempt (pos_part n) _
        ∙ ap (λ k. (update_job_status k b now provisioning_update w).1) named

    -- The callbacks of refused attempts change the status alone, before those of the end.
    callbacks-attempts :
        (n : ℤ) (left attempt : ℕ) (last : Option LaunchError) (w : World) {j : Job}
        → find i w.jobs ≡ some j
        → (w' : World) × (last' : Option LaunchError) × Waits j w w'
          × (callbacks b now (attempts s py describe event answers n left attempt last) w
              ≡ callbacks b now (exhausted s py describe event n last') w')
    unfolding attempts
    callbacks-attempts n zero attempt last w {j} there = (
      w,
      last,
      record { row = j; there = there; retries = refl; budget = refl; kafka = refl },
      refl,
    )
    callbacks-attempts n (suc left) attempt last w {j} there =
        let (e, refusal) = all attempt in
        let w1 = (update_job_status i b now provisioning_update w).1 in
        let first = provisioned provisioning_update w refl there in
        let (w', last', later, same) =
          callbacks-attempts n left (attempt + 1) (some e) w1 first.there in
        let rest = attempts s py describe event answers n left (attempt + 1) (some e) in
        (
          w',
          last',
          record {
            row = later.row;
            there = later.there;
            retries = later.retries ∙ first.retries;
            budget = later.budget ∙ first.budget;
            kafka = later.kafka ∙ first.kafka;
          },
          ap (λ t. callbacks b now t w)
                (loop_refused s py describe event answers builds n left attempt last e refusal)
              ∙ callbacks-append (tried s py describe event answers builds n attempt) rest w
              ∙ ap (callbacks b now rest) (callbacks-tried n attempt w)
              ∙ same,
        )

    callbacks-exhausted :
        (n : ℤ) (last : Option LaunchError) (w : World) {j : Job}
        → b.delivers started ≡ acknowledged
        → w.kafka.producer ≡ started
        → find i w.jobs ≡ some j
        → Ends j w (callbacks b now (exhausted s py describe event n last) w)
    callbacks-exhausted n last w {j} up on there =
        let text = some (err_msg s py describe event n last) in
        let u = update_of failed (record {
          status = "FAILED";
          container_id = none;
          error_message = if truthy? text then text else none;
        }) in
        subst (λ k. Ends j w (update_job_status k b now u w).1) (sym named)
          (failure-Ends u w refl up on there)

    -- One event of the job: what is done, and the world after it.
    pub round-Ends :
        (n : ℕ) (w : World) {j : Job}
        → int_field py "max_retries" s.default_max_retries event ≡ some (pos n)
        → b.delivers started ≡ acknowledged
        → w.kafka.producer ≡ started
        → find i w.jobs ≡ some j
        → (t : List Action) × (process_message s py describe event answers ≡ some t)
          × (count is_run t ≡ n)
          × (count is_dlq t ≡ 1)
          × Ends j w (callbacks b now t w)
    unfolding process_message
    round-Ends n w {j} budget up on there =
        let (t, last, done, run) =
          process_message_dead_letters s py describe event answers builds (pos n) budget
            (λ k lo hi. all k) in
        let own : process_message s py describe event answers
            ≡ some (attempts s py describe event answers (pos n) n 1 none) =
          rw (budget, process_message) refl in
        let same : attempts s py describe event answers (pos n) n 1 none ≡ t = ground arith in
        let (w', last', waits, cut) = callbacks-attempts (pos n) n 1 none w there in
        let ends =
          callbacks-exhausted (pos n) last' w' up (ap (λ k. k.producer) waits.kafka ∙ on)
            waits.there in
        (
          t,
          done,
          omega (arith, run.runs_lem),
          run.dlq_lem,
          subst (λ v. Ends j w v) (sym (ap (λ t. callbacks b now t w) (sym same) ∙ cut))
              (Ends-Waits waits ends),
        )

pub submitted-next :
    (m : Message) (ms : List Message)
    → str_eq m.topic job_topic ≡ true
    → (get_elem? (submitted (m ∷ ms)) (length (submitted ms)) ≡ some m)
      × (length (submitted (m ∷ ms)) ≡ length (submitted ms) + 1)
submitted-next m ms h = rw h (last_elem (submitted ms) m, length-append (submitted ms) (m ∷ []))
