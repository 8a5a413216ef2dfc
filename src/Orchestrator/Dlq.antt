-- ===== src/Orchestrator/Dlq.antt =====
-- services/orchestrator/app/dlq_producer.py: the producer of dead letters. What the broker answers, the
-- time stamp and the topic are arguments.
use dhp.Prelude.{
  String, Bool, true, false, List, [], ◌∷◌, ◌≡◌, ◌≢◌, refl, arith, All, if◌then◌else◌,
}
use dhp.Prelude.Dict.{Dict}
use dhp.Json.{Json, str, int, object, fields}
use dhp.Kafka.{
  Broker, absent, unstarted, started, Delivery, acknowledged, rejected, unacknowledged, Message,
  Kafka,
}
use dhp.Orchestrator.{Python}
use dhp.Orchestrator.Consumer.{DlqRequest, event_id}

-- `start`: a producer that is there is kept, also one whose own start raised. False when it raises.
abbrev pub start : Broker → Kafka → Bool × Kafka
start b k = elim k.producer [
  | absent ↦
      if b.starts
      then (true, record k { producer = started })
      else (false, record k { producer = unstarted })
  | _ ↦ (true, k)
]

-- `stop`
abbrev pub stop : Kafka → Kafka
stop k = record k { producer = absent }

-- The message of a dead letter.
abbrev pub payload : Python → String → Json → DlqRequest → Dict Json
payload py host timestamp r =
    ("job_id", str (event_id py r.original_event))
    ∷ ("original_event", object (fields r.original_event))
    ∷ ("error", str r.error)
    ∷ ("attempts", int r.attempts)
    ∷ ("host", str host)
    ∷ ("timestamp", timestamp)
    ∷ []

abbrev pub dead_letter : Python → String → String → Json → DlqRequest → Message
dead_letter py topic host timestamp r = record {
  topic = topic;
  key = event_id py r.original_event;
  value = payload py host timestamp r;
}

-- The `try` around `send_and_wait`: what it raises is logged.
abbrev pub sent_or_logged : Delivery → Message → Kafka → Kafka
sent_or_logged acknowledged m k = record k { stored = m ∷ k.stored }
sent_or_logged rejected m k = k
sent_or_logged unacknowledged m k = record k { stored = m ∷ k.stored }

-- `publish` of a message: false when it raises, which only `start` can make it do.
unfoldable pub publish : Broker → Message → Kafka → Bool × Kafka
publish b m k =
    let (ready, k') = start b k in
    if ready then (true, sent_or_logged (b.delivers k'.producer) m k') else (false, k')

-- Publications one after the other: which returned, and the producer after the last.
unfoldable pub publish_all : List (Broker × Message) → Kafka → List Bool × Kafka
publish_all [] k = ([], k)
publish_all ((b, m) ∷ rest) k =
    let (done, k') = publish b m k in let (more, k'') = publish_all rest k' in (done ∷ more, k'')

-- The messages that the brokers take from a started producer, newest first.
abbrev pub taken : List (Broker × Message) → List Message → List Message
taken [] ms = ms
taken ((b, m) ∷ rest) ms =
    taken rest (elim (b.delivers started) [
      | acknowledged ↦ m ∷ ms
      | rejected ↦ ms
      | unacknowledged ↦ m ∷ ms
    ])

pub published :
    (sends : List (Broker × Message)) (k : Kafka)
    → k.producer ≡ started
    → let (done, k') = publish_all sends k in
      All (λ d. d ≡ true) done × (k'.stored ≡ taken sends k.stored) × (k'.producer ≡ started)
unfolding publish_all publish
published [] k p = (tt, refl, p)
published ((b, m) ∷ rest) k p =
    let (done, k') = publish b m k in
    let (all, stored, producer) = published rest k' (ground arith) in
    ((ground arith, all), ground arith, producer)

pub start_lem :
    (b : Broker) (k : Kafka)
    → b.starts ≡ true
    → k.producer ≢ unstarted
    → (start b k).1.producer ≡ started
start_lem b k up ok = ground arith

-- After a start that succeeds, no publication raises, whatever the brokers answer to each, and what is
-- stored afterwards is exactly the messages that they took: a dead letter that fails neither masks the
-- error it reports nor stops a later one. This holds for a producer that is absent or started.
publish_all-taken :
    (b : Broker) (sends : List (Broker × Message)) (k : Kafka)
    → b.starts ≡ true
    → k.producer ≢ unstarted
    → let (ready, k') = start b k in
      let (done, k'') = publish_all sends k' in
      (ready ≡ true)
      × All (λ d. d ≡ true) done
      × (k''.stored ≡ taken sends k.stored)
      × (k''.producer ≡ started)
publish_all-taken b sends k up ok =
    let (ready, k') = start b k in
    let now : k'.producer ≡ started = start_lem b k up ok in
    let (all, stored, producer) = published sends k' now in
    (ground arith, all, ground arith, producer)
