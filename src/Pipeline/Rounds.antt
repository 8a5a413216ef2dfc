-- ===== src/Pipeline/Rounds.antt =====
-- A job that ECS refuses, from its submission to its last callback.
use dhp.Prelude.{
  ℕ, zero, suc, ◌+◌, ◌*◌, ◌<◌, String, true, Option, none, some, List, [], ◌∷◌, ◌++◌, ◌≡◌, refl,
  sym, ◌∙◌, ap, subst, arith, eq_refl, length, count, count-append,
}
use native.Mathlib.Nat.{add-mul}
use dhp.Prelude.Int.{pos}
use dhp.Json.{int}
use dhp.Kafka.{Broker, Message, started, acknowledged, send_job_event}
use dhp.Job.{Job, dead, JobCreateRequest}
use dhp.Job.Table.{find, job_id-find}
use dhp.Job.Service.{World, job_topic, new_job, retry_event, create_job}
use dhp.Job.Effects.{created_row, is_sent}
use dhp.Job.Submit.{submission, find-create_job}
use dhp.Orchestrator.{Settings, Python}
use dhp.Orchestrator.Ecs.{Answer, LaunchError, launch_of}
use dhp.Orchestrator.Consumer.{Action, process_message}
use dhp.Orchestrator.Launches.{is_run, is_dlq, IsRefused}
use dhp.Pipeline.{callbacks, submitted, get_elem?, Platform, next_round, rounds}
use dhp.Pipeline.Events.{IsRead, events-IsRead}
use dhp.Pipeline.Callbacks.{round-Ends, submitted-next, past_end}

-- Every event is consumed, and the job is DEAD.
pub record IsDead (i : String) (n : ℕ) (p : Platform) : Type 0 where
  pub row : Job
  pub there : find i p.world.jobs ≡ some row
  pub status : row.status ≡ dead
  pub retries : row.retry_count ≡ n
  pub consumed : get_elem? (submitted p.world.kafka.stored) p.offset ≡ none
  pub runs : count is_run p.actions ≡ (n + 1) * n
  pub dead_letters : count is_dlq p.actions ≡ n + 1

module _ (s : Settings) (py : Python) (describe : Option LaunchError → String) (b : Broker)
    (answers : ℕ → ℕ → Answer) (now : ℕ) (i : String) (n : ℕ) where
  -- After `k` events of the job the next one waits in the topic.
  record Pending (k : ℕ) (p : Platform) : Type 0 where
    row : Job
    there : find i p.world.jobs ≡ some row
    retries : row.retry_count ≡ k
    budget : row.max_retries ≡ n
    producer : p.world.kafka.producer ≡ started
    source : Job
    source_id : source.job_id ≡ i
    source_budget : source.max_retries ≡ n
    retry : ℕ
    message : Message
    read : IsRead s py source retry message.value
    next : get_elem? (submitted p.world.kafka.stored) p.offset ≡ some message
    last : length (submitted p.world.kafka.stored) ≡ p.offset + 1
    runs : count is_run p.actions ≡ k * n
    dead_letters : count is_dlq p.actions ≡ k

  module _ (up : b.delivers started ≡ acknowledged)
      (read : (k : ℕ) → py.to_int (int (pos k)) ≡ some (pos k))
      (all : (e k : ℕ) → IsRefused (launch_of (answers e k))) where
    abbrev step : Platform → Platform
    step = next_round s py describe b answers now

    taken :
        (p : Platform) {m : Message} {t : List Action}
        → get_elem? (submitted p.world.kafka.stored) p.offset ≡ some m
        → process_message s py describe m.value (answers p.offset) ≡ some t
        → step p ≡ record {
          world = callbacks b now t p.world;
          offset = p.offset + 1;
          actions = p.actions ++ t;
        }
    unfolding next_round
    taken p next done = rw (next_round, next, done) refl

    one_round :
        (k : ℕ) (p : Platform)
        → Pending k p
        → (k < n → Pending (k + 1) (step p)) × (k ≡ n → IsDead i n (step p))
    one_round k p h =
        let (t, done, runs, dlqs, ends) =
          round-Ends b now i s py describe h.message.value (answers p.offset) h.read.request
            (h.read.id ∙ h.source_id) (all p.offset) n p.world
            (h.read.budget ∙ ap (λ m. some (pos m)) h.source_budget) up h.producer h.there in
        let w' = callbacks b now t p.world in
        let p' : Platform = record {
          world = w';
          offset = p.offset + 1;
          actions = p.actions ++ t;
        } in
        let after : p' ≡ step p = sym (taken p h.next done) in
        let log = p.world.kafka.stored in
        let counted = add-mul k 1 n in
        (
          λ lt.
              let m : Message = record {
                topic = job_topic;
                key = i;
                value = retry_event ends.row;
              } in
              let stored : w'.kafka.stored ≡ m ∷ log =
                ground (arith, ends.stored, h.retries, h.budget) in
              let (next, longer) = submitted-next m log refl in
              let (_, again, _) = events-IsRead s py ends.row read in
              subst (Pending (k + 1)) after (record {
                row = ends.row;
                there = ends.there;
                retries = ground (arith, ends.retries, h.retries, h.budget);
                budget = ends.budget ∙ h.budget;
                producer = ends.producer;
                source = ends.row;
                source_id = job_id-find i w'.jobs ends.there;
                source_budget = ends.budget ∙ h.budget;
                retry = ends.row.retry_count;
                message = m;
                read = again;
                next =
                    rw stored (subst (λ o. get_elem? (submitted (m ∷ log)) o ≡ some m) h.last next);
                last = rw stored (omega (arith, longer, h.last));
                runs = omega (arith, count-append is_run p.actions t, runs, h.runs, counted);
                dead_letters = omega (arith, count-append is_dlq p.actions t, dlqs, h.dead_letters);
              }),
          λ last.
              let stored : w'.kafka.stored ≡ log =
                ground (arith, ends.stored, h.retries, h.budget) in
              subst (IsDead i n) after (record {
                row = ends.row;
                there = ends.there;
                status = ground (arith, ends.status, h.retries, h.budget);
                retries = ground (arith, ends.retries, h.retries, h.budget);
                consumed = rw stored (
                    subst (λ o. get_elem? (submitted log) o ≡ none) h.last
                      (past_end (submitted log)));
                runs =
                    omega (arith, count-append is_run p.actions t, runs, h.runs, counted)
                    ∙ ap (λ l. (l + 1) * n) last;
                dead_letters = omega (arith, count-append is_dlq p.actions t, dlqs, h.dead_letters);
              }),
        )

    all_rounds :
        (left k : ℕ) (p : Platform)
        → k + left ≡ n
        → Pending k p
        → IsDead i n (rounds s py describe b answers now (suc left) p)
    unfolding rounds
    all_rounds zero k p e h = (one_round k p h).1 (omega arith)
    all_rounds (suc left) k p e h =
        all_rounds left (k + 1) (step p) (omega arith) ((one_round k p h).0 (omega arith))

    submitted-Pending :
        (at : ℕ) (r : JobCreateRequest) (w : World)
        → r.max_retries ≡ n
        → find i w.jobs ≡ none
        → w.kafka.producer ≡ started
        → Pending 0 (record {
          world = (create_job i at b r w).1;
          offset = length (submitted w.kafka.stored);
          actions = [];
        })
    unfolding create_job send_job_event
    submitted-Pending at r w e fresh on =
        let j = new_job i at r in
        let m = submission i at r in
        let w' = (create_job i at b r w).1 in
        let sent : is_sent i at b r w ≡ true = ground arith in
        let stored : w'.kafka.stored ≡ m ∷ w.kafka.stored = ground arith in
        let (next, longer) = submitted-next m w.kafka.stored refl in
        let (first, _, _) = events-IsRead s py j read in
        record {
          row = created_row true j;
          there = ground (arith, eq_refl i, find-create_job i at b r w i fresh);
          retries = refl;
          budget = e;
          producer = ground arith;
          source = j;
          source_id = refl;
          source_budget = e;
          retry = 0;
          message = m;
          read = first;
          next = rw stored next;
          last = rw stored longer;
          runs = omega arith;
          dead_letters = refl;
        }

-- A job of budget `n` with a fresh id, submitted while the producer is up and acknowledged and the consumer
-- has read all that was published: if ECS refuses every attempt, then after `n + 1` events the job is
-- DEAD with `n` retries and no event waits, and by then `run_task` was called `(n + 1) * n` times and
-- `n + 1` dead letters were sent. This holds where `int` of an integer is that integer.
pub refused_job :
    (s : Settings) (py : Python) (describe : Option LaunchError → String) (b : Broker)
    (answers : ℕ → ℕ → Answer) (at now : ℕ) (i : String) (r : JobCreateRequest) (w : World)
    → b.delivers started ≡ acknowledged
    → ((k : ℕ) → py.to_int (int (pos k)) ≡ some (pos k))
    → ((e k : ℕ) → IsRefused (launch_of (answers e k)))
    → find i w.jobs ≡ none
    → w.kafka.producer ≡ started
    → IsDead i r.max_retries (
        rounds s py describe b answers now (suc r.max_retries) (record {
          world = (create_job i at b r w).1;
          offset = length (submitted w.kafka.stored);
          actions = [];
        }))
refused_job s py describe b answers at now i r w up read all fresh on =
    all_rounds s py describe b answers now i r.max_retries up read all r.max_retries 0 _
      (omega arith)
      (submitted-Pending s py describe b answers now i r.max_retries up read all at r w refl fresh
        on)
