-- ===== src/Pipeline/Extends.antt =====
-- What requests and callbacks leave of the job service's state: its rows move along, and its topics grow.
use dhp.Prelude.{
  ℕ, String, Option, some, List, [], ◌∷◌, ◌++◌, ◌≡◌, refl, sym, ap, ◌∙◌, append_assoc, Option-cases,
  inl, inr,
}
use dhp.Kafka.{Broker, Message}
use dhp.Security.{Tokens}
use dhp.Job.{Job}
use dhp.Job.Table.{find}
use dhp.Job.Service.{World}
use dhp.Job.Invariant.{IsValidTable, endpoint-IsValidTable}
use dhp.Job.Lifecycle.{Follows, Moves-refl, Moves-trans}
use dhp.Job.Router.{Call, update_status, guard, endpoint, handle}
use dhp.Orchestrator.Consumer.{
  Action, put_status, run_task, count_launch, count_retry, count_dlq, sleep, publish_dlq,
}
use dhp.Pipeline.{parse_status, update_of, callback, callbacks}
use dhp.Pipeline.Published.{IsSound, Grows-IsSound}
use dhp.Pipeline.Growth.{endpoint-Grows}

pub record Extends (w w' : World) : Type 0 where
  pub table : IsValidTable w.jobs → IsValidTable w'.jobs
  pub sound : IsSound w → IsSound w'
  pub follows : (k : String) (j : Job) → find k w.jobs ≡ some j → Follows k j w'
  pub added : List Message
  pub stored : w'.kafka.stored ≡ added ++ w.kafka.stored

Extends-refl : (w : World) → Extends w w
Extends-refl w = record {
  table = λ v. v;
  sound = λ v. v;
  follows = λ k j there. (j, there, Moves-refl j);
  added = [];
  stored = refl;
}

Extends-trans : (u v w : World) → Extends u v → Extends v w → Extends u w
Extends-trans u v w a b = record {
  table = λ h. b.table (a.table h);
  sound = λ h. b.sound (a.sound h);
  follows = λ k j there.
      let (j', there', moved) = a.follows k j there in
      let (j'', there'', moved') = b.follows k j' there' in
      (j'', there'', Moves-trans j j' j'' moved moved');
  added = b.added ++ a.added;
  stored =
      b.stored ∙ ap (◌++◌ b.added) a.stored ∙ sym (append_assoc b.added a.added u.kafka.stored);
}

endpoint-Extends : (c : Call) (w : World) → Extends w (endpoint c w).1
endpoint-Extends c w =
    let g = endpoint-Grows c w in
    let (added, stored) : (ms : List Message) × ((endpoint c w).1.kafka.stored
          ≡ ms ++ w.kafka.stored) =
      elim g.stored [ inl kept ↦ ([], kept) | inr (m, grown, new) ↦ (m ∷ [], grown) ] in
    record {
      table = endpoint-IsValidTable c w;
      sound = Grows-IsSound w (endpoint c w).1 g;
      follows = g.follows;
      added = added;
      stored = stored;
    }

pub handle-Extends :
    (t : Tokens) (header : Option String) (c : Call) (w : World) → Extends w (handle t header c w).1
unfolding handle
handle-Extends t header c w = elim (Option-cases (guard t c header)) [
  | inl passed ↦ rw (passed, handle) (endpoint-Extends c w)
  | inr (code, refused) ↦ rw (refused, handle) (Extends-refl w)
]

callback-Extends : (b : Broker) (now : ℕ) (a : Action) (w : World) → Extends w (callback b now a w)
callback-Extends b now (put_status i p) w = elim (Option-cases (parse_status p.status)) [
  | inl other ↦ rw (other, callback) (Extends-refl w)
  | inr (st, e) ↦ rw (e, callback) (endpoint-Extends (update_status i now b (update_of st p)) w)
]
callback-Extends b now (run_task r) w = Extends-refl w
callback-Extends b now (count_launch o) w = Extends-refl w
callback-Extends b now count_retry w = Extends-refl w
callback-Extends b now count_dlq w = Extends-refl w
callback-Extends b now (sleep n) w = Extends-refl w
callback-Extends b now (publish_dlq d) w = Extends-refl w

pub callbacks-Extends :
    (b : Broker) (now : ℕ) (acts : List Action) (w : World) → Extends w (callbacks b now acts w)
callbacks-Extends b now [] w = Extends-refl w
callbacks-Extends b now (a ∷ rest) w =
    Extends-trans w (callback b now a w) (callbacks b now rest (callback b now a w))
      (callback-Extends b now a w) (callbacks-Extends b now rest (callback b now a w))
