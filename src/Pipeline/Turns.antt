-- ===== src/Pipeline/Turns.antt =====
-- The API and the consumer in turns: every step keeps the requests to ECS within the budgets of their rows.
use dhp.Prelude.{
  ℕ, ◌+◌, ◌*◌, ◌≤◌, String, Option, some, List, [], ◌∷◌, ◌++◌, ◌≡◌, refl, sym, ◌∙◌, subst, str_eq,
  true, false, eq_iff, arith, count, count-append, All, All-append, All-imp, Option-cases,
  Bool-cases, inl, inr,
}
use native.Mathlib.Nat.{mul-add}
use dhp.Prelude.Int.{pos}
use dhp.Json.{int}
use dhp.Kafka.{Broker, Message}
use dhp.Security.{Tokens}
use dhp.Job.{Job}
use dhp.Job.Table.{find, job_id-find}
use dhp.Job.Router.{handle}
use dhp.Job.Lifecycle.{SameJob}
use dhp.Orchestrator.{Settings, Python}
use dhp.Orchestrator.Ecs.{Answer, LaunchError}
use dhp.Orchestrator.Consumer.{
  Action, put_status, run_task, count_launch, count_retry, count_dlq, sleep, publish_dlq,
}
use dhp.Orchestrator.Launches.{is_run}
use dhp.Pipeline.{Platform, callbacks, submitted, get_elem?, next_round}
use dhp.Pipeline.Events.{IsRead, request_of, events-IsRead}
use dhp.Pipeline.Published.{IsPublished}
use dhp.Pipeline.Requests.{is_run_of, Only, process_message-Only, runs_of}
use dhp.Pipeline.Extends.{handle-Extends, callbacks-Extends}
use dhp.Pipeline.Topic.{submitted-All, All-get_elem?, taken_next, get_elem?_lt, taken}
use dhp.Pipeline.System.{Act, request, consume, advance, run_all, empty, budget, IsOfRow}
use dhp.Pipeline.Budget.{IsWithinBudget, request_of-SameJob, Extends-IsWithinBudget, launches}

module _ (s : Settings) (py : Python) where
  Only-IsOfRow :
      (js : List Job) (source row : Job) (n : ℕ)
      → find row.job_id js ≡ some row
      → SameJob source row
      → (a : Action) → Only (request_of s py source n) a
      → IsOfRow s py js a
  Only-IsOfRow js source row n there same (run_task r) e =
      (row, n, there, e ∙ request_of-SameJob s py source row n same)
  Only-IsOfRow js source row n there same (put_status i u) h = tt
  Only-IsOfRow js source row n there same (count_launch o) h = tt
  Only-IsOfRow js source row n there same count_retry h = tt
  Only-IsOfRow js source row n there same count_dlq h = tt
  Only-IsOfRow js source row n there same (sleep n') h = tt
  Only-IsOfRow js source row n there same (publish_dlq d) h = tt

  -- An event that was read, before its callbacks.
  read_event :
      (p : Platform) (m : Message) (t : List Action) (n : ℕ) (e : IsPublished p.world.jobs m)
      → get_elem? (submitted p.world.kafka.stored) p.offset ≡ some m
      → All (Only (request_of s py e.source n)) t
      → count is_run t ≤ e.source.max_retries
      → IsWithinBudget s py p
      → IsWithinBudget s py (record p { offset = p.offset + 1; actions = p.actions ++ t })
  read_event p m t n e next only runs v =
      let js = p.world.jobs in
      let log = submitted p.world.kafka.stored in
      let named : e.row.job_id ≡ m.key = job_id-find m.key js e.there in
      let own : e.source.job_id ≡ m.key = sym e.same.job_id ∙ named in
      let there : find e.row.job_id js ≡ some e.row =
        subst (λ k. find k js ≡ some e.row) (sym named) e.there in
      record {
        table = v.table;
        sound = v.sound;
        offset = omega (arith, get_elem?_lt log p.offset next);
        requests = All-append (IsOfRow s py js) p.actions t v.requests (
            All-imp (Only (request_of s py e.source n)) (IsOfRow s py js) t
              (Only-IsOfRow js e.source e.row n there e.same) only);
        runs = λ k.
            let q = is_run_of k in
            let more = runs_of k e.source.job_id (request_of s py e.source n) t refl only in
            let read = taken_next k p.offset p.world.kafka.stored next in
            let all = count-append q p.actions t in
            elim (Bool-cases (str_eq m.key k)) [
              | inl same ↦
                  let here : find k js ≡ some e.row =
                    subst (λ i. find i js ≡ some e.row) ((eq_iff m.key k).0 same) e.there in
                  let most : budget k js ≡ e.row.max_retries = rw (here, budget) refl in
                  let mine : str_eq e.source.job_id k ≡ true = rw own same in
                  let one : count q t ≤ count is_run t = rw mine at more in
                  let next_one : taken k (p.offset + 1) p.world.kafka.stored
                      ≡ taken k p.offset p.world.kafka.stored + 1 =
                    rw same at read in
                  rw next_one (
                    omega (
                      arith,
                      v.runs k,
                      all,
                      one,
                      runs,
                      most,
                      e.same.max_retries,
                      mul-add (budget k js) (taken k p.offset p.world.kafka.stored) 1,
                    ))
              | inr other ↦
                  let strange : str_eq e.source.job_id k ≡ false = rw own other in
                  let zero_of : count q t ≤ 0 = rw strange at more in
                  let same_as : taken k (p.offset + 1) p.world.kafka.stored
                      ≡ taken k p.offset p.world.kafka.stored + 0 =
                    rw other at read in
                  rw same_as (
                    omega (
                      arith,
                      v.runs k,
                      all,
                      zero_of,
                      mul-add (budget k js) (taken k p.offset p.world.kafka.stored) 0,
                    ))
            ];
      }

  IsRead-published :
      (js : List Job) (m : Message) (e : IsPublished js m)
      → ((k : ℕ) → py.to_int (int (pos k)) ≡ some (pos k))
      → (n : ℕ) × IsRead s py e.source n m.value
  IsRead-published js m e read =
      let (first, again, _) = events-IsRead s py e.source read in
      elim e.event [
        | inl same ↦ (0, subst (IsRead s py e.source 0) (sym same) first)
        | inr same ↦ (
          e.source.retry_count,
          subst (IsRead s py e.source e.source.retry_count) (sym same) again,
        )
      ]

  module _ (describe : Option LaunchError → String)
      (read : (k : ℕ) → py.to_int (int (pos k)) ≡ some (pos k)) where
    next_round-IsWithinBudget :
        (b : Broker) (answers : ℕ → Answer) (now : ℕ) (p : Platform)
        → IsWithinBudget s py p
        → IsWithinBudget s py (next_round s py describe b (λ _. answers) now p)
    unfolding next_round
    next_round-IsWithinBudget b answers now p v =
        elim (Option-cases (get_elem? (submitted p.world.kafka.stored) p.offset)) [
          | inl end ↦ rw (end, next_round) v
          | inr (m, next) ↦
              let js = p.world.jobs in
              let e =
                All-get_elem? (IsPublished js) (submitted p.world.kafka.stored) p.offset
                  (submitted-All js p.world.kafka.stored v.sound.published) next in
              let (n, own) = IsRead-published js m e read in
              let (t, done, only, runs) =
                process_message-Only s py describe m.value answers e.source n own in
              rw (next, done, next_round)
                (Extends-IsWithinBudget s py p.world (callbacks b now t p.world)
                  (callbacks-Extends b now t p.world) (p.offset + 1) (p.actions ++ t)
                  (read_event p m t n e next only runs v))
        ]

    run_all-IsWithinBudget :
        (t : Tokens) (acts : List Act) (p : Platform)
        → IsWithinBudget s py p
        → IsWithinBudget s py (run_all s py describe t acts p)
    unfolding run_all advance
    run_all-IsWithinBudget t [] p v = v
    run_all-IsWithinBudget t (request header c ∷ rest) p v =
        run_all-IsWithinBudget t rest (record p { world = (handle t header c p.world).1 })
          (Extends-IsWithinBudget s py p.world (handle t header c p.world).1
            (handle-Extends t header c p.world) p.offset p.actions v)
    run_all-IsWithinBudget t (consume b answers now ∷ rest) p v =
        run_all-IsWithinBudget t rest (next_round s py describe b (λ _. answers) now p)
          (next_round-IsWithinBudget b answers now p v)

  empty-IsWithinBudget : IsWithinBudget s py empty
  empty-IsWithinBudget = record {
    table = record { rows = tt; distinct = tt };
    sound = record { published = tt; counted = λ k. omega arith };
    offset = omega arith;
    requests = tt;
    runs = λ k. omega arith;
  }

-- Start with no job, no event and nothing done, and let requests to the API and events read by the consumer take
-- turns in any order, whatever the requests and their tokens, the brokers, and what ECS answers. Then every
-- request to ECS was that of a row of the table, with the row's own id, entrypoint, arguments and
-- configuration, and a job of budget `n` was launched at most `(n + 1) * n` times, an id without a row
-- never. This holds where `int` of an integer is that integer, and while no schedule publishes.
pub run_all_launches :
    (s : Settings) (py : Python) (describe : Option LaunchError → String) (t : Tokens)
    (acts : List Act) (k : String)
    → ((n : ℕ) → py.to_int (int (pos n)) ≡ some (pos n))
    → let p = run_all s py describe t acts empty in
      let n = budget k p.world.jobs in
      All (IsOfRow s py p.world.jobs) p.actions × (count (is_run_of k) p.actions ≤ (n + 1) * n)
run_all_launches s py describe t acts k read =
    let p = run_all s py describe t acts empty in
    let v = run_all-IsWithinBudget s py describe read t acts empty (empty-IsWithinBudget s py) in
    (v.requests, launches s py p v k)
