-- ===== src/Orchestrator/JobConsumer.antt =====
-- services/orchestrator/app/consumer.py: `JobConsumer.start`, from the start of its clients over the loop to
-- their stop. Each event comes with what ECS and the broker of the dead letters answer during it; the
-- loop ends by a cancellation after the last one, or by an error.
use dhp.Prelude.{
  ℕ, String, Bool, true, false, Option, none, some, List, [], ◌∷◌, ◌++◌, map, ◌≡◌, ◌≢◌, ◌&&◌, refl,
  sym, ap, ◌∙◌, arith, All, if◌then◌else◌, append-nil, append_assoc, Option-cases, inl, inr,
}
use dhp.Prelude.Dict.{Dict}
use dhp.Json.{Json}
use dhp.Kafka.{Broker, Kafka, Producer, absent, unstarted, started, Message}
use dhp.Orchestrator.{Settings, Python}
use dhp.Orchestrator.Ecs.{Answer, LaunchError}
use dhp.Orchestrator.Consumer.{Action, publish_dlq, DlqRequest, process_message}
use dhp.Orchestrator.Dlq.{
  start as dlq_start, stop as dlq_stop, publish_all, taken, published, start_lem,
}

pub record Turn : Type 0 where
  pub event : Dict Json
  pub answers : ℕ → Answer
  pub broker : Broker

-- The clients, the Kafka consumer in the states of a producer, and what was done, oldest first.
pub record JobConsumer : Type 0 where
  pub consumer : Producer
  pub dlq : Kafka
  pub http_open : Bool
  pub actions : List Action

-- Whether each stop of the `finally` returns; one that raises leaves its client as it is.
pub record Stops : Type 0 where
  pub consumer : Bool
  pub dlq : Bool
  pub http : Bool

-- How `start` ends: it returns after a cancellation, or raises.
pub data Ending : Type 0 where
  cancelled raised : Ending

-- The dead letters among the acts.
abbrev pub letters : List Action → List DlqRequest
letters [] = []
letters (publish_dlq r ∷ acts) = r ∷ letters acts
letters (_ ∷ acts) = letters acts

abbrev pub all_done : List Bool → Bool
all_done [] = true
all_done (true ∷ rest) = all_done rest
all_done (false ∷ rest) = false

-- `to_message` writes a dead letter with its host, time stamp and topic.
module _ (s : Settings) (py : Python) (describe : Option LaunchError → String)
    (to_message : DlqRequest → Message) where
  abbrev pub acts_of : Turn → Option (List Action)
  acts_of t = process_message s py describe t.event t.answers

  abbrev pub sends_of : Turn → List Action → List (Broker × Message)
  sends_of t acts = map (λ r. (t.broker, to_message r)) (letters acts)

  -- `async for message in self.consumer`
  unfoldable pub loop : List Turn → JobConsumer → Ending × JobConsumer
  loop [] c = (cancelled, c)
  loop (t ∷ ts) c = elim (acts_of t) [
    | none ↦ (raised, c)
    | some acts ↦
        let (done, dlq) = publish_all (sends_of t acts) c.dlq in
        let c' = record c { dlq = dlq; actions = c.actions ++ acts } in
        let rest = loop ts c' in if all_done done then rest else (raised, c')
  ]

  -- The `finally` of `start`: a stop that raises skips those after it.
  abbrev pub close : Stops → JobConsumer → Bool × JobConsumer
  close q c =
      let c1 = record c { consumer = absent } in
      let c2 = record c1 { dlq = dlq_stop c.dlq } in
      if q.consumer
      then (if q.dlq
          then (if q.http then (true, record c2 { http_open = false }) else (false, c2))
          else (false, c1))
      else (false, c)

  abbrev closed : Stops → Ending × JobConsumer → Ending × JobConsumer
  closed q (e, c) = let (done, c') = close q c in (if done then e else raised, c')

  -- `start`: an error of the two starts comes before the `try`, so that nothing is stopped.
  unfoldable pub start : Bool → Broker → Stops → List Turn → JobConsumer → Ending × JobConsumer
  start consumer_starts b q ts c =
      let c1 = record c { consumer = started } in
      let (ready, dlq) = dlq_start b c.dlq in
      let c2 = record c1 { dlq = dlq } in
      if consumer_starts
      then (if ready then closed q (loop ts c2) else (raised, c2))
      else (raised, record c { consumer = unstarted })

  -- The events before the first whose budget is no number.
  abbrev pub before : List Turn → List Turn
  before [] = []
  before (t ∷ ts) = let rest = before ts in elim (acts_of t) [ none ↦ [] | some acts ↦ t ∷ rest ]

  abbrev pub all_acts : List Turn → List Action
  all_acts [] = []
  all_acts (t ∷ ts) =
      let rest = all_acts ts in elim (acts_of t) [ none ↦ rest | some acts ↦ acts ++ rest ]

  abbrev pub all_sends : List Turn → List (Broker × Message)
  all_sends [] = []
  all_sends (t ∷ ts) =
      let rest = all_sends ts in
      elim (acts_of t) [ none ↦ rest | some acts ↦ sends_of t acts ++ rest ]

  abbrev pub is_readable : List Turn → Bool
  is_readable [] = true
  is_readable (t ∷ ts) =
      let rest = is_readable ts in elim (acts_of t) [ none ↦ false | some acts ↦ rest ]

  all_done_lem : (ds : List Bool) → All (λ d. d ≡ true) ds → all_done ds ≡ true
  all_done_lem [] a = refl
  all_done_lem (true ∷ ds) a = all_done_lem ds a.1
  all_done_lem (false ∷ ds) a = cc

  taken-append :
      (xs ys : List (Broker × Message)) (ms : List Message)
      → taken (xs ++ ys) ms ≡ taken ys (taken xs ms)
  taken-append [] ys ms = refl
  taken-append ((b, m) ∷ xs) ys ms = taken-append xs ys _

  record Loops (ts : List Turn) (c : JobConsumer) (e : Ending) (c' : JobConsumer) : Type 0 where
    ending : e ≡ (if is_readable ts then cancelled else raised)
    done : c'.actions ≡ c.actions ++ all_acts (before ts)
    stored : c'.dlq.stored ≡ taken (all_sends (before ts)) c.dlq.stored
    consumer : c'.consumer ≡ c.consumer
    producer : c'.dlq.producer ≡ started
    http : c'.http_open ≡ c.http_open

  loop_lem :
      (ts : List Turn) (c : JobConsumer)
      → c.dlq.producer ≡ started
      → Loops ts c (loop ts c).0 (loop ts c).1
  unfolding loop
  loop_lem [] c on = record {
    ending = refl;
    done = sym (append-nil c.actions);
    stored = refl;
    consumer = refl;
    producer = on;
    http = refl;
  }
  loop_lem (t ∷ ts) c on = elim (Option-cases (acts_of t)) [
    | inl bad ↦
        let same : loop (t ∷ ts) c ≡ (raised, c) = rw (bad, loop) refl in
        let cut : before (t ∷ ts) ≡ [] = rw (bad, before) refl in
        let unread : is_readable (t ∷ ts) ≡ false = rw (bad, is_readable) refl in
        rw same (record {
          ending = rw unread refl;
          done = rw cut (sym (append-nil c.actions));
          stored = rw cut refl;
          consumer = refl;
          producer = on;
          http = refl;
        })
    | inr (acts, read) ↦
        let sends = sends_of t acts in
        let (all, stored, producer) = published sends c.dlq on in
        let c' = record c { dlq = (publish_all sends c.dlq).1; actions = c.actions ++ acts } in
        let done = all_done_lem (publish_all sends c.dlq).0 all in
        let same : loop (t ∷ ts) c ≡ loop ts c' = rw (read, loop, done) refl in
        let rest = loop_lem ts c' producer in
        let cut : before (t ∷ ts) ≡ t ∷ before ts = rw (read, before) refl in
        let more : all_acts (t ∷ before ts) ≡ acts ++ all_acts (before ts) =
          rw (read, all_acts) refl in
        let sent : all_sends (t ∷ before ts) ≡ sends ++ all_sends (before ts) =
          rw (read, all_sends) refl in
        let as_rest : is_readable (t ∷ ts) ≡ is_readable ts = rw (read, is_readable) refl in
        rw same (record {
          ending = rw as_rest rest.ending;
          done = rw (cut, more) (rest.done ∙ append_assoc c.actions acts (all_acts (before ts)));
          stored =
              rw (cut, sent)
                (rest.stored
                  ∙ ap (taken (all_sends (before ts))) stored
                  ∙ sym (taken-append sends (all_sends (before ts)) c.dlq.stored));
          consumer = rest.consumer;
          producer = rest.producer;
          http = rest.http;
        })
  ]

  -- How `start` leaves the consumer: with the acts and dead letters of the events it has read, and the
  -- clients closed up to the first whose stop raises.
  pub record IsClosed (q : Stops) (ts : List Turn) (c : JobConsumer) (e : Ending) (c' : JobConsumer)
      : Type 0 where
    pub ending : e ≡ (if is_readable ts && q.consumer && q.dlq && q.http then cancelled else raised)
    pub done : c'.actions ≡ c.actions ++ all_acts (before ts)
    pub stored : c'.dlq.stored ≡ taken (all_sends (before ts)) c.dlq.stored
    pub consumer : c'.consumer ≡ (if q.consumer then absent else started)
    pub producer : c'.dlq.producer ≡ (if q.consumer && q.dlq then absent else started)
    pub http : c'.http_open ≡ (if q.consumer && q.dlq && q.http then false else c.http_open)

  closed-IsClosed :
      (q : Stops) (ts : List Turn) (c c' : JobConsumer) (e : Ending)
      → e ≡ (if is_readable ts then cancelled else raised)
      → c'.actions ≡ c.actions ++ all_acts (before ts)
      → c'.dlq.stored ≡ taken (all_sends (before ts)) c.dlq.stored
      → c'.consumer ≡ started
      → c'.dlq.producer ≡ started
      → c'.http_open ≡ c.http_open
      → IsClosed q ts c (closed q (e, c')).0 (closed q (e, c')).1
  closed-IsClosed q ts c c' e ending done stored consumer producer http = record {
    ending = ground arith;
    done = ground arith;
    stored = ground arith;
    consumer = ground arith;
    producer = ground arith;
    http = ground arith;
  }

  -- Where the Kafka consumer starts, and the producer of dead letters does and is none whose start has
  -- failed: the loop takes the events in order up to the first whose budget is no number, does all that
  -- they ask for, and the brokers hold exactly the dead letters that they took; no later event is
  -- processed. It ends by the cancellation if there is no such event and every stop returns, and
  -- else raises. In each case the consumer is stopped, then the producer, then the HTTP client closed, up
  -- to the first of these that raises: that one and those after it stay as they are.
  pub start-IsClosed :
      (b : Broker) (q : Stops) (ts : List Turn) (c : JobConsumer)
      → b.starts ≡ true
      → c.dlq.producer ≢ unstarted
      → IsClosed q ts c (start true b q ts c).0 (start true b q ts c).1
  unfolding start
  start-IsClosed b q ts c up ok =
      let c2 = record c { consumer = started; dlq = (dlq_start b c.dlq).1 } in
      let ready : (dlq_start b c.dlq).0 ≡ true = ground arith in
      let kept : (dlq_start b c.dlq).1.stored ≡ c.dlq.stored = ground arith in
      let run = loop_lem ts c2 (start_lem b c.dlq up ok) in
      let stored = run.stored ∙ ap (taken (all_sends (before ts))) kept in
      let ran : start true b q ts c ≡ closed q (loop ts c2) = rw (ready, start) refl in
      rw ran (
        closed-IsClosed q ts c (loop ts c2).1 (loop ts c2).0 run.ending run.done stored run.consumer
          run.producer run.http)

  -- Where the Kafka consumer starts and the producer of dead letters does not, `start` raises and the
  -- consumer, that producer and the HTTP client are left open.
  start_leaves_open :
      (b : Broker) (q : Stops) (ts : List Turn) (c : JobConsumer)
      → b.starts ≡ false
      → c.dlq.producer ≡ absent
      → let (e, c') = start true b q ts c in
        (e ≡ raised)
        × (c'.consumer ≡ started)
        × (c'.dlq.producer ≡ unstarted)
        × (c'.http_open ≡ c.http_open)
  unfolding start
  start_leaves_open b q ts c down none_yet =
      (ground arith, ground arith, ground arith, ground arith)
