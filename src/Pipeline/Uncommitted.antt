-- ===== src/Pipeline/Uncommitted.antt =====
-- A submission whose transaction (services/job-service/app/db/session.py) is not committed, and the event that
-- it has sent all the same, at the consumer of services/orchestrator/app/consumer.py.
use dhp.Prelude.{ℕ, String}
use dhp.Kafka.{Broker}
use dhp.Job.{Job, JobCreateRequest}
use dhp.Job.Service.{World, create_job}

-- What such a submission leaves: its event, and nothing of its row.
abbrev orphaned : String → ℕ → Broker → JobCreateRequest → World → World
orphaned i at b r w = record (create_job i at b r w).1 { jobs = w.jobs }
