-- ===== src/Orchestrator/Ticks.antt =====
-- One tick of the scheduler: when it commits, and what undoes it.
use dhp.Prelude.{
  ℕ, ◌≤◌, Bool, true, false, none, List, [], ◌∷◌, ◌++◌, map, ◌≡◌, ◌⊎◌, inl, inr, refl, arith, keep,
  take, length, length-take, All,
}
use native.Mathlib.Nat.{le_trans}
use dhp.Orchestrator.Scheduler.{ScheduledJob, Fire, Cron, Tick, is_due, returned, tick}
use dhp.Orchestrator.Fires.{
  after, events, is_sound, fire_all_sound, fire_all-append, fire_all_broken, events-append,
  rows-fire_all, length-fire_all, publish-events,
}

module _ (cron : Cron) (env : ScheduledJob → Fire) where
  module _ (order : List ScheduledJob → List ScheduledJob) (now : ℕ)
      (rows : List ScheduledJob) where
    -- The rows that a tick selects.
    abbrev pub due : List ScheduledJob
    due = take 50 (order (keep (is_due now) rows))

    -- A tick that does not get the lock does nothing, and no tick stores more than fifty events.
    tick_bounds :
        (got_lock : Bool)
        → let t = tick order cron got_lock now env rows in
          (length t.published ≤ 50)
          × ((got_lock ≡ true) ⊎ (t ≡ record { rows = rows; published = [] }))
    unfolding tick
    tick_bounds true =
        let t : Tick = record { rows = rows; published = [] } in
        (
          le_trans (length-fire_all cron now env due t rows)
              (omega (arith, length-take 50 (order (keep (is_due now) rows)))),
          inl refl,
        )
    tick_bounds false = (omega arith, inr refl)

    -- With the lock, if no due row raises, the tick commits: every due row whose publication returned is
    -- stamped with its run, the database's time at the start of the tick's transaction, and the next
    -- instant after the process's own clock; every other row is as it was, and what is published is the
    -- event of each due row that the broker has stored.
    pub tick_commits :
        All (λ d. is_sound cron now env d ≡ true) due
        → let t = tick order cron true now env rows in
          (t.rows ≡ map (after cron now env due) rows) × (t.published ≡ events cron now env due [])
    unfolding tick
    tick_commits sound =
        let t : Tick = record { rows = rows; published = [] } in
        let (t', ended, sent) = fire_all_sound cron now env due t sound in
        rw ended (rows-fire_all cron now env due t ended, sent)

    -- One due row whose event is published and whose next instant cannot be computed undoes the tick:
    -- no row advances, that of the schedules before it included, whose events stay published and so
    -- are published again by the next tick.
    pub tick_undone :
        (ds es : List ScheduledJob) (d : ScheduledJob)
        → due ≡ ds ++ d ∷ es
        → All (λ d. is_sound cron now env d ≡ true) ds
        → returned (env d).delivery ≡ true
        → cron d.cron_expression d.timezone (env d).now ≡ none
        → let t = tick order cron true now env rows in
          (t.rows ≡ rows) × (t.published ≡ events cron now env (ds ++ d ∷ []) [])
    unfolding tick
    tick_undone ds es d split sound reply bad =
        let t : Tick = record { rows = rows; published = [] } in
        let (t', ended, sent) = fire_all_sound cron now env ds t sound in
        rw (split, fire_all-append, ended, fire_all_broken cron now env d es t' reply bad)
          (refl, rw (events-append, ← sent) (publish-events cron now env d t'))
