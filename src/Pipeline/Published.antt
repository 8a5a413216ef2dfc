-- ===== src/Pipeline/Published.antt =====
-- The submission topic as services/job-service/app/services/job_service.py fills it: which rows its events
-- were written of, and how many there are of each.
use dhp.Prelude.{
  ℕ, ◌+◌, ◌≤◌, ◌<◌, String, true, none, some, List, ◌∷◌, ◌≡◌, ◌⊎◌, inl, inr, refl, arith, eq_iff,
  str_eq, All, All-imp, Option-cases, Bool-cases, subst,
}
use dhp.Kafka.{Message}
use dhp.Job.{Job}
use dhp.Job.Table.{find}
use dhp.Job.Service.{World, job_topic, job_event, retry_event}
use dhp.Job.Retry.{submissions}
use dhp.Job.Lifecycle.{
  Phase, Steps, here, next, report, retry, bury, cancel_active, SameJob, Moves-refl, Follows,
}

-- How many events of a job the topic may hold: one of its submission, and one for each retry.
abbrev pub due : String → List Job → ℕ
due k js = elim (find k js) [ none ↦ 0 | some j ↦ 1 + j.retry_count ]

-- The event was written of a row that is still there, with what was submitted unchanged.
pub record IsPublished (js : List Job) (m : Message) : Type 0 where
  pub row : Job
  pub source : Job
  pub there : find m.key js ≡ some row
  pub same : SameJob source row
  pub event : (m.value ≡ job_event source) ⊎ (m.value ≡ retry_event source)

abbrev pub Published : List Job → Message → Type 0
Published js m = str_eq m.topic job_topic ≡ true → IsPublished js m

pub record IsSound (w : World) : Type 0 where
  pub published : All (Published w.jobs) w.kafka.stored
  pub counted : (k : String) → submissions k w ≤ due k w.jobs

-- What one call does to the topic: at most one event, which its row counts.
pub record Grows (w w' : World) : Type 0 where
  pub follows : (k : String) (j : Job) → find k w.jobs ≡ some j → Follows k j w'
  pub stored :
      (w'.kafka.stored ≡ w.kafka.stored)
      ⊎ ((m : Message) × (w'.kafka.stored ≡ m ∷ w.kafka.stored)
          × (str_eq m.topic job_topic ≡ true
              → IsPublished w'.jobs m × (due m.key w.jobs < due m.key w'.jobs)))

pub Grows-refl : (w : World) → Grows w w
Grows-refl w = record { follows = λ k j there. (j, there, Moves-refl j); stored = inl refl }

retries-Steps : {budget : ℕ} {p q : Phase} → Steps budget p q → p.retries ≤ q.retries
retries-Steps here = omega arith
retries-Steps (next s (report st h)) = retries-Steps s
retries-Steps (next s (retry h)) = omega (arith, retries-Steps s)
retries-Steps (next s (bury h)) = retries-Steps s
retries-Steps (next s (cancel_active h)) = retries-Steps s

pub SameJob-trans : (i j k : Job) → SameJob i j → SameJob j k → SameJob i k
SameJob-trans i j k a b = ground arith

pub SameJob-refl : (j : Job) → SameJob j j
SameJob-refl j = (Moves-refl j).0

module _ (w w' : World) where
  due-Grows : Grows w w' → (k : String) → due k w.jobs ≤ due k w'.jobs
  due-Grows g k = elim (Option-cases (find k w.jobs)) [
    | inl missing ↦ rw (missing, due) (omega arith)
    | inr (j, there) ↦
        let (j', there', moved) = g.follows k j there in
        rw (there, there', due) (omega (arith, retries-Steps moved.1))
  ]

  published-Grows : Grows w w' → (m : Message) → Published w.jobs m → Published w'.jobs m
  published-Grows g m h t =
      let p = h t in
      let (j', there', moved) = g.follows m.key p.row p.there in
      record {
        row = j';
        source = p.source;
        there = there';
        same = SameJob-trans p.source p.row j' p.same moved.0;
        event = p.event;
      }

  pub Grows-IsSound : Grows w w' → IsSound w → IsSound w'
  Grows-IsSound g v =
      let old =
        All-imp (Published w.jobs) (Published w'.jobs) w.kafka.stored (published-Grows g)
          v.published in
      elim g.stored [
        | inl same ↦ record {
          published = rw same old;
          counted = λ k. rw same (omega (arith, v.counted k, due-Grows g k));
        }
        | inr (m, grown, new) ↦ record {
          published = rw grown (λ t. (new t).0, old);
          counted = λ k. rw grown (elim (Bool-cases (str_eq m.topic job_topic)) [
            | inl t ↦ elim (Bool-cases (str_eq m.key k)) [
              | inl e ↦
                  let same = (eq_iff m.key k).0 e in
                  let more = subst (λ i. due i w.jobs < due i w'.jobs) same (new t).1 in
                  rw (t, e) (omega (arith, v.counted k, more))
              | inr e ↦ rw (t, e) (omega (arith, v.counted k, due-Grows g k))
            ]
            | inr t ↦ rw t (omega (arith, v.counted k, due-Grows g k))
          ]);
        }
      ]
