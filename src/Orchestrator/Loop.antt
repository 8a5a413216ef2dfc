-- ===== src/Orchestrator/Loop.antt =====
-- services/orchestrator/app/scheduler.py: the loop of `Scheduler.start`, tick after tick, and what a row that
-- cannot be advanced does to it.
use dhp.Prelude.{
  ℕ, ◌≤◌, String, Bool, true, none, List, [], ◌∷◌, ◌++◌, ◌≡◌, refl, ap, arith, length,
  length-append, All,
}
use dhp.Prelude.Dict.{Dict}
use dhp.Json.{Json}
use dhp.Kafka.{Delivery}
use dhp.Orchestrator.Scheduler.{ScheduledJob, Fire, Cron, Tick, returned, is_stored, tick}
use dhp.Orchestrator.Fires.{events, is_sound, events-append}
use dhp.Orchestrator.Ticks.{due, tick_undone}

-- The surroundings of one tick.
pub record Round : Type 0 where
  pub got_lock : Bool
  pub now : ℕ
  pub env : ScheduledJob → Fire

is_stored-returned : (d : Delivery) → returned d ≡ true → is_stored d ≡ true
is_stored-returned d h = ground arith

module _ (cron : Cron) (order : List ScheduledJob → List ScheduledJob) where
  -- The table after so many ticks, and all that they published, newest first. A tick that raises is logged
  -- and the loop goes on.
  unfoldable pub run_loop : List Round → List ScheduledJob → Tick
  run_loop [] rows = record { rows = rows; published = [] }
  run_loop (r ∷ rounds) rows =
      let t = tick order cron r.got_lock r.now r.env rows in
      let rest = run_loop rounds t.rows in
      record { rows = rest.rows; published = rest.published ++ t.published }

  -- Among the due rows stands one whose event is published and whose next instant cannot be computed, and
  -- no row before it is such a one.
  pub record IsPoisoned (rows : List ScheduledJob) (r : Round) : Type 0 where
    pub locked : r.got_lock ≡ true
    pub before : List ScheduledJob
    pub bad : ScheduledJob
    pub behind : List ScheduledJob
    pub split : due cron r.env order r.now rows ≡ before ++ bad ∷ behind
    pub sound : All (λ d. is_sound cron r.now r.env d ≡ true) before
    pub replied : returned (r.env bad).delivery ≡ true
    pub broken : cron bad.cron_expression bad.timezone (r.env bad).now ≡ none

  -- What poisoned ticks publish: the due events up to the bad row, once more at each tick.
  unfoldable pub replayed :
      (rows : List ScheduledJob) (rounds : List Round)
      → All (IsPoisoned rows) rounds
      → List (String × Dict Json)
  replayed rows [] all = []
  replayed rows (r ∷ rounds) (h, all) =
      replayed rows rounds all ++ events cron r.now r.env (h.before ++ h.bad ∷ []) []

  one_more :
      (rows : List ScheduledJob) (r : Round) (h : IsPoisoned rows r)
      → 1 ≤ length (events cron r.now r.env (h.before ++ h.bad ∷ []) [])
  unfolding events
  one_more rows r h =
      let joined = events-append cron r.now r.env h.before (h.bad ∷ []) [] in
      rw (joined, is_stored-returned (r.env h.bad).delivery h.replied) (omega arith)

  -- Over any number of ticks at each of which a due row is published and cannot be advanced, the table stays
  -- as it is, and every tick publishes the event of that row, and those stored of the due rows before it,
  -- once more: at least one event for each tick.
  pub run_loop_poisoned :
      (rows : List ScheduledJob) (rounds : List Round) (all : All (IsPoisoned rows) rounds)
      → ((run_loop rounds rows).rows ≡ rows)
        × ((run_loop rounds rows).published ≡ replayed rows rounds all)
        × (length rounds ≤ length (run_loop rounds rows).published)
  unfolding run_loop replayed
  run_loop_poisoned rows [] all = (refl, refl, omega arith)
  run_loop_poisoned rows (r ∷ rounds) (h, all) =
      let (kept, sent) =
        tick_undone cron r.env order r.now rows h.before h.behind h.bad h.split h.sound h.replied
          h.broken in
      let (same, published, many) = run_loop_poisoned rows rounds all in
      let one = one_more rows r h in
      let added =
        length-append (replayed rows rounds all)
          (events cron r.now r.env (h.before ++ h.bad ∷ []) []) in
      rw (h.locked, kept, sent)
        (
          same,
          rw published refl,
          rw published (omega (arith, one, added, many, ap length published)),
        )
