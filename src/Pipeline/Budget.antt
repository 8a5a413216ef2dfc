-- ===== src/Pipeline/Budget.antt =====
-- What the consumer of services/orchestrator/app/consumer.py asks of ECS, whatever the job API has
-- accepted and however the two take turns.
use dhp.Prelude.{
  ℕ, ◌+◌, ◌*◌, ◌≤◌, String, some, List, ◌++◌, ◌≡◌, sym, ap, ◌∙◌, subst, str_eq, arith, count,
  length, length-append, take, All, All-imp, Option-cases, inl, inr,
}
use native.Mathlib.Nat.{mul-le-mul_left, mul-le-mul_right, mul_comm}
use dhp.Job.{Job}
use dhp.Job.Table.{find, All-find}
use dhp.Job.Service.{World}
use dhp.Job.Invariant.{IsValidTable, IsValidJob}
use dhp.Job.Lifecycle.{SameJob}
use dhp.Orchestrator.{Settings, Python}
use dhp.Orchestrator.Consumer.{
  Action, put_status, run_task, count_launch, count_retry, count_dlq, sleep, publish_dlq,
}
use dhp.Pipeline.{Platform, submitted}
use dhp.Pipeline.Events.{request_of}
use dhp.Pipeline.Published.{due, IsSound}
use dhp.Pipeline.Requests.{is_run_of}
use dhp.Pipeline.Extends.{Extends}
use dhp.Pipeline.Topic.{submitted-append, take-append, taken, taken-submissions}
use dhp.Pipeline.System.{budget, IsOfRow}

module _ (s : Settings) (py : Python) where
  pub record IsWithinBudget (p : Platform) : Type 0 where
    pub table : IsValidTable p.world.jobs
    pub sound : IsSound p.world
    pub offset : p.offset ≤ length (submitted p.world.kafka.stored)
    pub requests : All (IsOfRow s py p.world.jobs) p.actions
    pub runs :
        (k : String)
        → count (is_run_of k) p.actions
          ≤ budget k p.world.jobs * taken k p.offset p.world.kafka.stored

  pub request_of-SameJob :
      (j j' : Job) (n : ℕ) → SameJob j j' → request_of s py j n ≡ request_of s py j' n
  request_of-SameJob j j' n same =
      rw (same.job_id, same.entrypoint, same.arguments, same.spark_config)

  module _ (w w' : World) (e : Extends w w') where
    budget-Extends : (k : String) → budget k w.jobs ≤ budget k w'.jobs
    budget-Extends k = elim (Option-cases (find k w.jobs)) [
      | inl missing ↦ rw (missing, budget) (omega arith)
      | inr (j, there) ↦
          let (j', there', moved) = e.follows k j there in
          rw (there, there', budget) (omega (arith, moved.0.max_retries))
    ]

    IsOfRow-Extends : (a : Action) → IsOfRow s py w.jobs a → IsOfRow s py w'.jobs a
    IsOfRow-Extends (run_task r) (j, n, there, same) =
        let (j', there', moved) = e.follows j.job_id j there in
        (
          j',
          n,
          subst (λ k. find k w'.jobs ≡ some j') (sym moved.0.job_id) there',
          same ∙ request_of-SameJob j j' n moved.0,
        )
    IsOfRow-Extends (put_status i u) h = tt
    IsOfRow-Extends (count_launch o) h = tt
    IsOfRow-Extends count_retry h = tt
    IsOfRow-Extends count_dlq h = tt
    IsOfRow-Extends (sleep n) h = tt
    IsOfRow-Extends (publish_dlq d) h = tt

    topic-Extends : submitted w'.kafka.stored ≡ submitted w.kafka.stored ++ submitted e.added
    topic-Extends = ap submitted e.stored ∙ submitted-append e.added w.kafka.stored

    -- Requests and callbacks leave what the consumer has read as it is.
    pub Extends-IsWithinBudget :
        (o : ℕ) (acts : List Action)
        → IsWithinBudget (record { world = w; offset = o; actions = acts })
        → IsWithinBudget (record { world = w'; offset = o; actions = acts })
    Extends-IsWithinBudget o acts v =
        let topic = topic-Extends in
        record {
          table = e.table v.table;
          sound = e.sound v.sound;
          offset = rw topic (
              omega
                (arith, v.offset, length-append (submitted w.kafka.stored) (submitted e.added)));
          requests =
              All-imp (IsOfRow s py w.jobs) (IsOfRow s py w'.jobs) acts IsOfRow-Extends v.requests;
          runs = λ k.
              let kept : taken k o w'.kafka.stored ≡ taken k o w.kafka.stored =
                ap (λ ms. count (λ m. str_eq m.key k) (take o ms)) topic
                ∙ ap (count (λ m. str_eq m.key k))
                    (take-append o (submitted w.kafka.stored) (submitted e.added) v.offset) in
              omega (
                arith,
                v.runs k,
                ap (λ n. budget k w'.jobs * n) kept,
                mul-le-mul_right (taken k o w.kafka.stored) (budget-Extends k),
              );
        }

due_budget : (k : String) (js : List Job) → IsValidTable js → due k js ≤ budget k js + 1
due_budget k js v = elim (Option-cases (find k js)) [
  | inl missing ↦ rw (missing, due, budget) (omega arith)
  | inr (j, there) ↦
      rw (there, due, budget) (omega (arith, (All-find IsValidJob k js v.rows there).within_budget))
]

pub launches :
    (s : Settings) (py : Python) (p : Platform)
    → IsWithinBudget s py p
    → (k : String) → let n = budget k p.world.jobs in count (is_run_of k) p.actions ≤ (n + 1) * n
launches s py p v k =
    let n = budget k p.world.jobs in
    let read : taken k p.offset p.world.kafka.stored ≤ n + 1 = omega (
      arith,
      taken-submissions k p.offset p.world,
      v.sound.counted k,
      due_budget k p.world.jobs v.table,
    ) in
    omega (arith, v.runs k, mul-le-mul_left n read, mul_comm n (n + 1))
