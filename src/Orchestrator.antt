-- ===== src/Orchestrator.antt =====
-- services/orchestrator/app: the Kafka consumers, the ECS client, the dead-letter producer and the
-- cron scheduler. What the modules share: the settings of config.py and the conversions of Python
-- that the handlers make.
pub mod Ecs
pub mod Consumer
pub mod Launches
pub mod DeadLetters
pub mod Dlq
pub mod JobConsumer
pub mod Bounds
pub mod Tasks
pub mod Scheduler
pub mod Fires
pub mod Ticks
pub mod Loop
mod Tests
use dhp.Prelude.{ℕ, String, Option, none, some, List, [], ◌∷◌, if◌then◌else◌, truthy?, get_or}
use dhp.Prelude.Int.{ℤ, pos}
use dhp.Prelude.Dict.{Dict, lookup}
use dhp.Json.{Json, str}

-- The settings that the handlers read.
pub record Settings : Type 0 where
  pub kafka_brokers : String
  pub runtime_kafka_brokers : Option String
  pub job_service_url : String
  pub runtime_job_service_url : Option String
  pub internal_api_token : String
  pub ecs_cluster : String
  pub spark_task_definition : String
  pub spark_subnets : List String
  pub spark_security_groups : List String
  pub spark_container_name : String
  pub default_max_retries : ℕ

-- Python's `int(x)` and `str(x)` on what a JSON text holds, and `str` of an integer; `none` where
-- `int` raises. Nothing is assumed of them but what a theorem names.
pub record Python : Type 0 where
  pub to_int : Json → Option ℤ
  pub to_str : Json → String
  pub int_to_str : ℤ → String

-- `int(event.get(key, default))`
abbrev pub int_field : Python → String → ℕ → Dict Json → Option ℤ
int_field py key default event = elim (lookup key event) [
  | none ↦ some (pos default)
  | some v ↦ py.to_int v
]

-- `a or b` on an optional text and a text.
abbrev pub or_text : Option String → String → String
or_text a b = if truthy? a then get_or a b else b
