-- ===== src/Pipeline/Growth.antt =====
-- What each call of services/job-service/app/routers/jobs.py adds to the submission topic.
use dhp.Prelude.{
  ℕ, subst, sym, Bool, List, ◌+◌, ◌<◌, String, true, false, none, some, ◌∷◌, ◌≡◌, ◌⊎◌, inl, inr,
  refl, ◌∙◌, arith, eq_refl, str_eq, Option-cases, Bool-cases, ltb,
}
use dhp.Prelude.Dict.{Dict}
use dhp.Json.{Json}
use dhp.Kafka.{Broker, Message, Delivery, acknowledged, rejected, unacknowledged, send_job_event}
use dhp.Kafka.Start.{answer_of, kept_by, send_job_event_outcome}
use dhp.Job.{
  Job, JobStatus, JobResponse, cancelled, failed, JobCreateRequest, JobStatusUpdate, accepts,
}
use dhp.Job.Table.{find, job_id-find}
use dhp.Job.Service.{
  World, is_terminal, job_topic, status_topic, cancel_event, job_event, retry_event, new_job,
  create_job, cancel_job, update_job_status,
}
use dhp.Job.Effects.{updated_row}
use dhp.Job.Submit.{create_job_outcome, submission, IsSubmitted}
use dhp.Job.Retry.{find-update_job_status}
use dhp.Job.Cancel.{retry_message, cancel_job_active}
use dhp.Job.Lifecycle.{SameJob, create_job-Follows, endpoint-Follows}
use dhp.Job.Router.{Call, submit, get, cancel, update_status, endpoint}
use dhp.Pipeline.Published.{due, IsPublished, Grows, Grows-refl, SameJob-refl}

-- The event a call adds to the topic, where it adds one, is of the row `row` of its job.
new_event :
    (w w' : World) (m : Message) (source row : Job)
    → find m.key w'.jobs ≡ some row
    → SameJob source row
    → ((m.value ≡ job_event source) ⊎ (m.value ≡ retry_event source))
    → due m.key w.jobs < 1 + row.retry_count
    → str_eq m.topic job_topic ≡ true
    → IsPublished w'.jobs m × (due m.key w.jobs < due m.key w'.jobs)
new_event w w' m source row there same event more t =
    let p : IsPublished w'.jobs m = record {
      row = row;
      source = source;
      there = there;
      same = same;
      event = event;
    } in
    (p, rw (there, due) more)

stored-create_job_clash :
    (i : String) (now : ℕ) (b : Broker) (r : JobCreateRequest) (w : World) {j : Job}
    → find i w.jobs ≡ some j
    → (create_job i now b r w).1.kafka.stored ≡ w.kafka.stored
unfolding create_job
stored-create_job_clash i now b r w clash = ground arith

abbrev retries : JobStatus → Job → Bool
retries failed j = ltb j.retry_count j.max_retries
retries _ j = false

stored-update_job_status :
    (i : String) (b : Broker) (now : ℕ) (u : JobStatusUpdate) (w : World)
    → let w' = (update_job_status i b now u w).1 in
      (w'.kafka.stored ≡ w.kafka.stored)
      ⊎ ((j : Job) × (find i w.jobs ≡ some j)
          × (w'.kafka.stored ≡ retry_message u now j ∷ w.kafka.stored)
          × ((updated_row u now j).retry_count ≡ j.retry_count + 1))
unfolding update_job_status
stored-update_job_status i b now u w = elim (Option-cases (find i w.jobs)) [
  | inl missing ↦ inl (ground arith)
  | inr (j, there) ↦ elim (Bool-cases (retries u.status j)) [
    | inl again ↦
        let m = retry_message u now j in
        let more : (updated_row u now j).retry_count ≡ j.retry_count + 1 = ground arith in
        let sent : (update_job_status i b now u w).1.kafka.stored
            ≡ (send_job_event b m w.kafka).1.stored =
          ground arith in
        elim (send_job_event_outcome b m w.kafka) [
          | inl (ok, e) ↦ inr (j, there, sent ∙ e, more)
          | inr (lost, inl e) ↦ inl (sent ∙ e)
          | inr (lost, inr e) ↦ inr (j, there, sent ∙ e, more)
        ]
    | inr over ↦ inl (ground arith)
  ]
]

kept :
    (d : Delivery) (key : String) (value : Dict Json) (ms : List Message)
    → let all = kept_by d (record { topic = status_topic; key = key; value = value }) ms in
      (all ≡ ms) ⊎ ((m : Message) × (all ≡ m ∷ ms) × (str_eq m.topic job_topic ≡ false))
kept acknowledged key value ms = inr (_, refl, refl)
kept rejected key value ms = inl refl
kept unacknowledged key value ms = inr (_, refl, refl)

stored-cancel_job :
    (i : String) (b : Broker) (now : ℕ) (w : World)
    → let w' = (cancel_job i b now w).1 in
      (w'.kafka.stored ≡ w.kafka.stored)
      ⊎ ((m : Message) × (w'.kafka.stored ≡ m ∷ w.kafka.stored)
          × (str_eq m.topic job_topic ≡ false))
unfolding cancel_job
stored-cancel_job i b now w = elim (Option-cases (find i w.jobs)) [
  | inl missing ↦ inl (ground arith)
  | inr (j, there) ↦ elim (Bool-cases (is_terminal j.status)) [
    | inl t ↦ inl (ground arith)
    | inr t ↦
        let (reply, there', outcome) = cancel_job_active i b now w there t in
        rw outcome (
          kept (answer_of b w.kafka) i
            (cancel_event (record j { status = cancelled; completed_at = some now }))
            w.kafka.stored)
  ]
]

create_job-Grows :
    (i : String) (now : ℕ) (b : Broker) (r : JobCreateRequest) (w : World)
    → Grows w (create_job i now b r w).1
create_job-Grows i now b r w = elim (Option-cases (find i w.jobs)) [
  | inr (j, clash) ↦ record {
    follows = create_job-Follows i now b r w;
    stored = inl (stored-create_job_clash i now b r w clash);
  }
  | inl fresh ↦
      let (reply, replied, outcome) = create_job_outcome i now b r w fresh in
      go (answer_of b w.kafka) reply fresh outcome
]
  where
    sent :
        {row : Job}
        → find i w.jobs ≡ none
        → find i (create_job i now b r w).1.jobs ≡ some row
        → SameJob (new_job i now r) row
        → (create_job i now b r w).1.kafka.stored ≡ submission i now r ∷ w.kafka.stored
        → Grows w (create_job i now b r w).1
    sent {row} fresh there same stored = record {
      follows = create_job-Follows i now b r w;
      stored = inr (
        submission i now r,
        stored,
        new_event w (create_job i now b r w).1 (submission i now r) (new_job i now r) row there same
            (inl refl) (rw (fresh, due) (omega arith)),
      );
    }

    go :
        (d : Delivery) (reply : JobResponse)
        → find i w.jobs ≡ none
        → IsSubmitted d i now r w reply (create_job i now b r w).1
        → Grows w (create_job i now b r w).1
    go acknowledged reply fresh q = sent fresh q.row (ground arith) q.stored
    go rejected reply fresh q = record {
      follows = create_job-Follows i now b r w;
      stored = inl q.kafka;
    }
    go unacknowledged reply fresh q = sent fresh q.row (ground arith) q.kafka

pub endpoint-Grows : (c : Call) (w : World) → Grows w (endpoint c w).1
endpoint-Grows (submit i now b r) w = elim (Bool-cases (accepts r)) [
  | inl ok ↦ rw ok (create_job-Grows i now b r w)
  | inr bad ↦ rw bad (Grows-refl w)
]
endpoint-Grows (get i) w = Grows-refl w
endpoint-Grows (cancel i now b) w = record {
  follows = endpoint-Follows (cancel i now b) w;
  stored = elim (stored-cancel_job i b now w) [
    | inl kept ↦ inl kept
    | inr (m, kept, other) ↦ inr (m, kept, λ t. absurd (cc t))
  ];
}
endpoint-Grows (update_status i now b u) w = record {
  follows = endpoint-Follows (update_status i now b u) w;
  stored = elim (stored-update_job_status i b now u w) [
    | inl kept ↦ inl kept
    | inr (j, there, kept, more) ↦
        let row = updated_row u now j in
        let same = job_id-find i w.jobs there in
        let before : due j.job_id w.jobs ≡ 1 + j.retry_count =
          subst (λ k. due k w.jobs ≡ 1 + j.retry_count) (sym same) (rw (there, due) refl) in
        inr (
          retry_message u now j,
          kept,
          new_event w (update_job_status i b now u w).1 (retry_message u now j) row row
              (rw same (ground (arith, eq_refl i, find-update_job_status i b now u w i)))
              (SameJob-refl row) (inr refl) (omega (arith, before, more)),
        )
  ];
}
