-- ===== src/Kafka/Start.antt =====
-- What a send promises, whatever state the producer is in.
use dhp.Prelude.{true, false, List, ◌∷◌, ◌≡◌, ◌⊎◌, arith, if◌then◌else◌}
use dhp.Kafka.{
  Broker, Kafka, Message, Delivery, acknowledged, rejected, unacknowledged, absent, started,
  send_job_event,
}

-- A send that returns has stored its message, and one that raises has stored it or nothing.
pub send_job_event_outcome :
    (b : Broker) (m : Message) (k : Kafka)
    → let (sent, k') = send_job_event b m k in
      ((sent ≡ true) × (k'.stored ≡ m ∷ k.stored))
      ⊎ ((sent ≡ false) × ((k'.stored ≡ k.stored) ⊎ (k'.stored ≡ m ∷ k.stored)))
unfolding send_job_event
send_job_event_outcome b m k = ground arith

-- What comes of a send: a producer that is there is used as it is, and one that is not must start first.
abbrev pub answer_of : Broker → Kafka → Delivery
answer_of b k = elim k.producer [
  | absent ↦ if b.starts then b.delivers started else rejected
  | p ↦ b.delivers p
]

-- What the broker holds after an answer.
abbrev pub kept_by : Delivery → Message → List Message → List Message
kept_by acknowledged m ms = m ∷ ms
kept_by rejected m ms = ms
kept_by unacknowledged m ms = m ∷ ms

-- A send stores its message unless it is rejected.
pub stored-send_job_event :
    (b : Broker) (m : Message) (k : Kafka)
    → (send_job_event b m k).1.stored ≡ kept_by (answer_of b k) m k.stored
unfolding send_job_event
stored-send_job_event b m k = ground arith
