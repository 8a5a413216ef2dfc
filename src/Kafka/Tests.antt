-- ===== src/Kafka/Tests.antt =====
-- Runs of the Kafka client.
use dhp.Prelude.{Bool, true, false, [], ◌∷◌, ◌≡◌, refl, All}
use dhp.Kafka.{
  Broker, Delivery, Kafka, Message, Producer, acknowledged, rejected, absent, unstarted, started,
  send_job_event,
}
use dhp.Kafka.Health.{probe, send, use_once, use_all, HasFailed, IsMisled, failed_start_is_hidden}

abbrev answers : Producer → Delivery
answers started = acknowledged
answers _ = rejected

abbrev down : Broker
down = record { starts = false; delivers = answers }

abbrev up : Broker
up = record { starts = true; delivers = answers }

abbrev empty : Kafka
empty = record { producer = absent; stored = [] }

abbrev hello : Message
hello = record { topic = "t"; key = "k"; value = [] }

-- With a broker that is up the message is stored.
sends : send_job_event up hello empty ≡ (true, record { producer = started; stored = hello ∷ [] })
unfolding send_job_event
sends = refl

abbrev never : Producer → Bool
never p = false

-- A probe finds the broker down; later the broker is up, a send fails and a probe is content.
failed_start_is_hidden_example :
    HasFailed (use_once never (probe true down) empty).0
    × ((use_once never (probe true down) empty).1.stored ≡ [])
    × All IsMisled
        (use_all never
          (send up hello ∷ probe true up ∷ [])
          (use_once never (probe true down) empty).1).0
    × ((use_all never
          (send up hello ∷ probe true up ∷ [])
          (use_once never (probe true down) empty).1).1.producer
        ≡ unstarted)
failed_start_is_hidden_example =
    failed_start_is_hidden never (probe true down) (send up hello ∷ probe true up ∷ []) empty refl
      refl refl
