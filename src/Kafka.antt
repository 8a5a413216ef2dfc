-- ===== src/Kafka.antt =====
-- services/job-service/app/services/kafka_client.py: the process-wide producer, created on first
-- use. What the broker answers is the environment: an argument of each call.
pub mod Start
pub mod Health
mod Tests
use dhp.Prelude.{String, Bool, true, false, ◌+◌, List, ◌∷◌, if◌then◌else◌}
use dhp.Prelude.Dict.{Dict}
use dhp.Json.{Json}

-- The module variable `_producer`. It is assigned before `start()` is awaited, so after a `start()`
-- that raises it holds a producer that has not started.
pub data Producer : Type 0 where
  absent unstarted started : Producer

-- What comes of one `send_and_wait`: the record is stored and the call returns; the call raises and
-- nothing is stored; or the call raises although the broker has stored the record.
pub data Delivery : Type 0 where
  acknowledged rejected unacknowledged : Delivery

pub record Message : Type 0 where
  pub topic : String
  pub key : String
  pub value : Dict Json

-- The broker during one request: whether `start()` succeeds, and how it answers a producer.
pub record Broker : Type 0 where
  pub starts : Bool
  pub delivers : Producer → Delivery

-- The client's state, and what the broker has stored, newest first.
pub record Kafka : Type 0 where
  pub producer : Producer
  pub stored : List Message

-- `get_kafka_producer`: false when `start()` raises.
unfoldable pub get_kafka_producer : Broker → Kafka → Bool × Kafka
get_kafka_producer b k = elim k.producer [
  | absent ↦
      if b.starts
      then (true, record k { producer = started })
      else (false, record k { producer = unstarted })
  | _ ↦ (true, k)
]

-- `close_kafka_producer`
unfoldable pub close_kafka_producer : Kafka → Kafka
close_kafka_producer k = record k { producer = absent }

abbrev store_delivery : Delivery → Message → Kafka → Bool × Kafka
store_delivery acknowledged m k = (true, record k { stored = m ∷ k.stored })
store_delivery rejected m k = (false, k)
store_delivery unacknowledged m k = (false, record k { stored = m ∷ k.stored })

abbrev send_and_wait : Broker → Message → Bool → Kafka → Bool × Kafka
send_and_wait b m true k = store_delivery (b.delivers k.producer) m k
send_and_wait b m false k = (false, k)

-- `send_job_event`: false when it raises.
unfoldable pub send_job_event : Broker → Message → Kafka → Bool × Kafka
unfolding get_kafka_producer
send_job_event b m k = let (ready, k') = get_kafka_producer b k in send_and_wait b m ready k'
