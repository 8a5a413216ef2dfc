-- ===== src/Lib.antt =====
-- DHP, a data lakehouse platform: models of its services and the theorems that make them correct.
--
-- The program is a set of Python services around one PostgreSQL database, Kafka and AWS. A client submits
-- jobs to the job service (services/job-service), which keeps a row for each and publishes an event; the
-- orchestrator (services/orchestrator) consumes the event, launches a Spark task on ECS, reports back by
-- status callbacks, and fires the schedules of `scheduled_jobs` on its own. The metadata service keeps a catalog
-- of databases and tables and mirrors it to Glue, the lineage service records OpenLineage events, the storage
-- service wraps S3, and the log service reads the jobs' logs from Loki.
--
-- Modules:
-- - Prelude: shared names, Python's lists, texts, integers and dicts. Json: JSON values.
-- - Kafka: services/job-service/app/services/kafka_client.py. The module variable `_producer` is the
--   state; what the broker answers is an argument of each call. Kafka.Health is the readiness probe of
--   routers/health.py, which gets the same producer.
-- - Security: services/job-service/app/security.py (`_require_token`).
-- - Job: services/job-service/app/models and db/models.py (data); Job.Table the table `jobs`; Job.World the
--   state that the methods share (the table, the Kafka client, the metrics that were recorded) and the
--   events; Job.Service services/job_service.py, one function per method over that state; Job.Router
--   routers/jobs.py, one call per endpoint, Job.Logs its `get_job_logs`, Job.Session the transaction of
--   db/session.py round them, which the other files leave out. The other children of Job prove: Effects
--   (rows), Invariant, Retry, Submit, Cancel, Gauge, Access, Lifecycle, Listing and Unknown.
-- - Orchestrator: services/orchestrator/app. Ecs is ecs_manager.py, Consumer is consumer.py (a message is
--   processed into the sequence of what is done to the outside), Scheduler is scheduler.py (one tick over
--   the table), Dlq is dlq_producer.py, Loop is the scheduler's loop over ticks,
--   JobConsumer the consumer from its start to its stop. Launches,
--   DeadLetters, Bounds, Tasks, Fires, Ticks and Loop prove.
-- - Schedules: services/job-service/app/routers/schedules.py and models/schedule.py, the API over the
--   table that the scheduler polls. Schedules.System interleaves its requests with the scheduler's ticks;
--   Fresh, Ticked and Trigger prove. Http: what an endpoint answers.
-- - Catalog: services/metadata-service/app. Columns is the schema evolution of `update_table` with the
--   identity of the objects that it changes in place, Glue is glue_client.py, State the
--   four tables, Service services/metadata_service.py over them, SchemaUpdate its `update_table`,
--   Router is routers/databases.py and tables.py, of which Queries holds the endpoints that read.
--   Versions, History, Schema, Update and Drop prove; Gauges holds the start of main.py, with
--   Tally. What SQLAlchemy writes of a JSON column at a flush is a parameter.
-- - Pipeline: the job service and the orchestrator together. Events reads back what the one publishes;
--   the rounds of the consumer's loop take the events one by one and bring the status callbacks to the
--   job service, where Callbacks and Rounds prove for one job. System lets requests to the API and
--   events taken by the consumer come in any order; Published, Growth, Requests, Extends, Topic, Budget
--   and Turns prove of it, Cancelled and Uncommitted of a job whose event waits. The schedules' events
--   are left out there.
-- - Lineage: services/lineage-service/app. Service is services/lineage_service.py over the four tables,
--   Graph its recursive query, Router routers/lineage.py with its counters and routes. Datasets,
--   Edges, Integrity, Recorded, Replay, Nearest, Walk, Reach and Routes prove. PostgreSQL's `||` and
--   collation and FastAPI's dispatch are parameters.
-- - Logs: services/log-service/app. Logs is loki_client.py, Router routers/logs.py; Stream proves.
-- - Storage: services/storage-service/app. Storage is s3_client.py, Router routers/storage.py; their runs are
--   in Tests.
-- - Migrations: db/migrations/versions. JobTables, CatalogTables and Baseline are 0001_baseline.py,
--   ScheduledJobs 0002_scheduled_jobs.py and LineageTables 0003_lineage.py, as statements over a schema:
--   its tables with their columns and constraints, indexes, functions and triggers, with the meaning that
--   PostgreSQL documents for them. Frame and Downgrade, Growth and Repeat prove.
-- - Limits: services/job-service/app/rate_limit.py, of which the other services hold copies.
--
-- Clock readings, fresh ids, the answers of Kafka, ECS, Glue, Loki and S3, the order in which PostgreSQL returns
-- rows, and croniter are arguments, so the theorems hold for all of them; where one rests on what such a part
-- documents, that is a hypothesis. There is no fuel: the loop of a message recurs on the rounds of its
-- range, the consumer's loop on the number of events, the lineage query on `max_depth`, and
-- every other loop on a list. Instants are numbers.
--
-- Not modelled: the HTTP framework below the endpoints, logging, configuration from the environment, the
-- start and stop of the loops but that of JobConsumer, database failures other than a violated key (a CHECK among
-- them), and the windows in which slowapi counts requests.
pub mod Catalog
pub mod Http
pub mod Job
pub mod Json
pub mod Kafka
pub mod Limits
pub mod Lineage
pub mod Logs
pub mod Migrations
pub mod Orchestrator
pub mod Pipeline
pub mod Prelude
pub mod Schedules
pub mod Security
pub mod Storage
