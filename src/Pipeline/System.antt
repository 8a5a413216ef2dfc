-- ===== src/Pipeline/System.antt =====
-- The job API of services/job-service/app/routers/jobs.py and the consumer of
-- services/orchestrator/app/consumer.py at work on the same topic, in any order.
use dhp.Prelude.{ℕ, String, Option, none, some, List, [], ◌∷◌, ◌≡◌}
use dhp.Kafka.{Broker, absent}
use dhp.Security.{Tokens}
use dhp.Job.{Job}
use dhp.Job.Table.{find}
use dhp.Job.Router.{Call, handle}
use dhp.Orchestrator.{Settings, Python}
use dhp.Orchestrator.Ecs.{Answer, LaunchError}
use dhp.Orchestrator.Consumer.{Action, run_task}
use dhp.Pipeline.{Platform, next_round}
use dhp.Pipeline.Events.{request_of}

-- A request to the API with its header, or the next event of the topic with the broker during its
-- callbacks and what ECS answers at each attempt.
pub data Act : Type 0 where
  request : Option String → Call → Act
  consume : Broker → (ℕ → Answer) → ℕ → Act

unfoldable pub advance :
    Settings → Python → (Option LaunchError → String) → Tokens → Act → Platform → Platform
advance s py describe t (request header c) p = record p { world = (handle t header c p.world).1 }
advance s py describe t (consume b answers now) p = next_round s py describe b (λ _. answers) now p

unfoldable pub run_all :
    Settings → Python → (Option LaunchError → String) → Tokens → List Act → Platform → Platform
run_all s py describe t [] p = p
run_all s py describe t (a ∷ rest) p = run_all s py describe t rest (advance s py describe t a p)

-- The platform before its first request.
abbrev pub empty : Platform
empty = record {
  world = record { jobs = []; kafka = record { producer = absent; stored = [] }; metrics = [] };
  offset = 0;
  actions = [];
}

-- The retries that were submitted with a job, and none for a job that was not.
abbrev pub budget : String → List Job → ℕ
budget k js = elim (find k js) [ none ↦ 0 | some j ↦ j.max_retries ]

-- A call of `run_task` is with the request of a row of the table.
abbrev pub IsOfRow : Settings → Python → List Job → Action → Type 0
IsOfRow s py js (run_task r) =
    (j : Job) × (n : ℕ) × (find j.job_id js ≡ some j) × (r ≡ request_of s py j n)
IsOfRow s py js _ = Unit
