-- ===== src/Kafka/Health.antt =====
-- services/job-service/app/routers/health.py: the readiness probe, which gets the producer as a submission
-- does, and its interplay with the sends. The probe gives up after two seconds: a start that it
-- cancels is one that raises. Whether the database answers is an argument.
use dhp.Prelude.{ℕ, Bool, true, false, not, ◌&&◌, List, [], ◌∷◌, ◌≡◌, arith, All, if◌then◌else◌}
use dhp.Kafka.{
  Broker, Kafka, Message, Producer, Delivery, acknowledged, absent, unstarted, get_kafka_producer,
  send_job_event,
}

pub record Readiness : Type 0 where
  pub status_code : ℕ
  pub database : Bool
  pub kafka : Bool

-- `_check_kafka`, by which producers aiokafka holds for closed.
abbrev check_kafka : (Producer → Bool) → Broker → Kafka → Bool × Kafka
check_kafka closed b k =
    let (got, k') = get_kafka_producer b k in (got && not (closed k'.producer), k')

-- `readiness`
unfoldable pub readiness : (Producer → Bool) → Bool → Broker → Kafka → Readiness × Kafka
unfolding get_kafka_producer
readiness closed db_ok b k =
    let (kafka_ok, k') = check_kafka closed b k in
    (
      record {
        status_code = if db_ok && kafka_ok then 200 else 503;
        database = db_ok;
        kafka = kafka_ok;
      },
      k',
    )

-- What uses the producer: a probe, or the sending of an event.
pub data Use : Type 0 where
  probe : Bool → Broker → Use
  send : Broker → Message → Use

pub data Result : Type 0 where
  answered : Readiness → Result
  sent : Bool → Result

abbrev pub broker_of : Use → Broker
broker_of (probe db_ok b) = b
broker_of (send b m) = b

unfoldable pub use_once : (Producer → Bool) → Use → Kafka → Result × Kafka
use_once closed (probe db_ok b) k = let (r, k') = readiness closed db_ok b k in (answered r, k')
use_once closed (send b m) k = let (ok, k') = send_job_event b m k in (sent ok, k')

-- Uses one after the other, each with its result, and the client after the last.
unfoldable pub use_all : (Producer → Bool) → List Use → Kafka → List (Use × Result) × Kafka
use_all closed [] k = ([], k)
use_all closed (u ∷ us) k =
    let (r, k') = use_once closed u k in let (rs, k'') = use_all closed us k' in ((u, r) ∷ rs, k'')

-- Whether a send that comes back has succeeded.
abbrev pub is_acknowledged : Delivery → Bool
is_acknowledged acknowledged = true
is_acknowledged _ = false

-- A probe is told that Kafka is well, and a send comes back as its broker answers a producer that has not
-- started.
abbrev pub IsMisled : Use × Result → Type 0
IsMisled (probe db_ok b, answered r) =
    (r.kafka ≡ true) × (r.status_code ≡ (if db_ok then 200 else 503))
IsMisled (send b m, sent ok) = ok ≡ is_acknowledged (b.delivers unstarted)
IsMisled (_, _) = true ≡ false

-- The first use reports the failure.
abbrev pub HasFailed : Result → Type 0
HasFailed (answered r) = (r.kafka ≡ false) × (r.status_code ≡ 503)
HasFailed (sent ok) = ok ≡ false

misled :
    (closed : Producer → Bool) (us : List Use) (k : Kafka)
    → closed unstarted ≡ false
    → k.producer ≡ unstarted
    → let (rs, k') = use_all closed us k in All IsMisled rs × (k'.producer ≡ unstarted)
unfolding use_all use_once readiness send_job_event
misled closed [] k c p = (tt, p)
misled closed (probe db_ok b ∷ us) k c p =
    let (r, k') = readiness closed db_ok b k in
    let (all, producer) = misled closed us k' c (ground arith) in
    (((ground arith, ground arith), all), producer)
misled closed (send b m ∷ us) k c p =
    let (ok, k') = send_job_event b m k in
    let (all, producer) = misled closed us k' c (ground arith) in ((ground arith, all), producer)

-- Once the start of the first producer fails, in a probe or in a send, nothing starts it again: that use
-- reports the failure and stores nothing, and in whatever order probes and sends follow, also when their
-- brokers could start a producer, every probe says that Kafka is well and answers 200 if the database
-- is, every send that comes back is made on the producer that has not started, and the client still holds
-- that producer at the end. This holds for a client with no producer yet, and an aiokafka that does not
-- hold a producer that has not started for closed.
pub failed_start_is_hidden :
    (closed : Producer → Bool) (u : Use) (us : List Use) (k : Kafka)
    → closed unstarted ≡ false
    → k.producer ≡ absent
    → (broker_of u).starts ≡ false
    → let (r, k') = use_once closed u k in
      let (rs, k'') = use_all closed us k' in
      HasFailed r × (k'.stored ≡ k.stored) × All IsMisled rs × (k''.producer ≡ unstarted)
unfolding use_once readiness send_job_event
failed_start_is_hidden closed (probe db_ok b) us k c none_yet down =
    let (r, k') = readiness closed db_ok b k in
    let (all, producer) = misled closed us k' c (ground arith) in
    ((ground arith, ground arith), ground arith, all, producer)
failed_start_is_hidden closed (send b m) us k c none_yet down =
    let (ok, k') = send_job_event b m k in
    let (all, producer) = misled closed us k' c (ground arith) in
    (ground arith, ground arith, all, producer)
