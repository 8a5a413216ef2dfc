-- ===== src/Schedules/Ticked.antt =====
-- A tick of the orchestrator keeps the invariant of `scheduled_jobs`.
use dhp.Prelude.{
  ℕ, Bool, true, false, some, List, [], ◌∷◌, map, ◌≡◌, refl, arith, All, All-imp, keep-All,
  take-All, keep, take, str_eq, eq_iff, String, Bool-cases, Option-cases, inl, inr,
}
use dhp.Prelude.Rows.{find, find_self}
use dhp.Orchestrator.Scheduler.{
  ScheduledJob, Cron, Fire, Tick, Ended, committed, raised, stamp, publish, fire, fire_all, finish,
  and_then, is_due, tick, returned,
}
use dhp.Schedules.{schedule_id_of, name_of}
use dhp.Schedules.Fresh.{IsScheduled, IsValidSchedules}

-- The rows with the id of `d` have its expression and its zone.
abbrev Agrees : ScheduledJob → ScheduledJob → Type 0
Agrees d s =
    str_eq s.schedule_id d.schedule_id ≡ true
    → (s.cron_expression ≡ d.cron_expression) × (s.timezone ≡ d.timezone)

-- Each row to be fired agrees with the table.
abbrev Agree : List ScheduledJob → List ScheduledJob → Type 0
Agree ds rows = All (λ d. All (Agrees d) rows) ds

module _ (sid job_id : String) (now nxt : ℕ) where
  ids-stamp :
      (rows : List ScheduledJob)
      → map schedule_id_of (stamp sid job_id now nxt rows) ≡ map schedule_id_of rows
  ids-stamp [] = refl
  ids-stamp (r ∷ rows) = ground (arith, ids-stamp rows)

  names-stamp :
      (rows : List ScheduledJob) → map name_of (stamp sid job_id now nxt rows) ≡ map name_of rows
  names-stamp [] = refl
  names-stamp (r ∷ rows) = ground (arith, names-stamp rows)

  stamp-Agrees :
      (d : ScheduledJob) (rows : List ScheduledJob)
      → All (Agrees d) rows
      → All (Agrees d) (stamp sid job_id now nxt rows)
  stamp-Agrees d [] a = tt
  stamp-Agrees d (r ∷ rows) a = elim (Bool-cases (str_eq r.schedule_id sid)) [
    | inl e ↦ rw e (a.0, stamp-Agrees d rows a.1)
    | inr e ↦ rw e (a.0, stamp-Agrees d rows a.1)
  ]

module _ (cron : Cron) where
  stamp-IsScheduled :
      (d : ScheduledJob) (job_id : String) (at now nxt : ℕ) (rows : List ScheduledJob)
      → cron d.cron_expression d.timezone now ≡ some nxt
      → All (Agrees d) rows
      → All (IsScheduled cron) rows
      → All (IsScheduled cron) (stamp d.schedule_id job_id at nxt rows)
  stamp-IsScheduled d job_id at now nxt [] next a s = tt
  stamp-IsScheduled d job_id at now nxt (r ∷ rows) next a s =
      elim (Bool-cases (str_eq r.schedule_id d.schedule_id)) [
        | inl e ↦
            let (same_cron, same_zone) = a.0 e in
            rw e (
              (now, rw (same_cron, same_zone) next),
              stamp-IsScheduled d job_id at now nxt rows next a.1 s.1,
            )
        | inr e ↦ rw e (s.0, stamp-IsScheduled d job_id at now nxt rows next a.1 s.1)
      ]

  stamp-IsValidSchedules :
      (d : ScheduledJob) (job_id : String) (at now nxt : ℕ) (rows : List ScheduledJob)
      → cron d.cron_expression d.timezone now ≡ some nxt
      → All (Agrees d) rows
      → IsValidSchedules cron rows
      → IsValidSchedules cron (stamp d.schedule_id job_id at nxt rows)
  stamp-IsValidSchedules d job_id at now nxt rows next a v = record {
    ids = rw (ids-stamp d.schedule_id job_id at nxt rows) v.ids;
    names = rw (names-stamp d.schedule_id job_id at nxt rows) v.names;
    scheduled = stamp-IsScheduled d job_id at now nxt rows next a v.scheduled;
  }

  module _ (started : ℕ) (env : ScheduledJob → Fire) where
    rows-publish : (d : ScheduledJob) (t : Tick) → (publish d (env d) t).rows ≡ t.rows
    rows-publish d t = ground arith

    -- What a fire commits is valid, and agrees with the rows still to be fired.
    abbrev IsKept : List ScheduledJob → Ended → Type 0
    IsKept ds (committed t) = IsValidSchedules cron t.rows × Agree ds t.rows
    IsKept ds (raised t) = Unit

    fire-IsKept :
        (d : ScheduledJob) (ds : List ScheduledJob) (t : Tick)
        → IsValidSchedules cron t.rows
        → All (Agrees d) t.rows
        → Agree ds t.rows
        → IsKept ds (fire cron started d (env d) t)
    unfolding fire
    fire-IsKept d ds t v here rest = elim (Bool-cases (returned (env d).delivery)) [
      | inr e ↦ rw (e, rows-publish d t) (v, rest)
      | inl e ↦ elim (Option-cases (cron d.cron_expression d.timezone (env d).now)) [
        | inl bad ↦ rw (e, bad) tt
        | inr (nxt, good) ↦
            rw (e, good, rows-publish d t)
              (
                stamp-IsValidSchedules d (env d).job_id started (env d).now nxt t.rows good here v,
                All-imp (λ c. All (Agrees c) t.rows)
                    (λ c. All (Agrees c) (stamp d.schedule_id (env d).job_id started nxt t.rows)) ds
                    (λ c. stamp-Agrees d.schedule_id (env d).job_id started nxt c t.rows) rest,
              )
      ]
    ]

    fire_all-IsValid :
        (ds : List ScheduledJob) (t : Tick) (rows : List ScheduledJob)
        → IsValidSchedules cron rows
        → IsValidSchedules cron t.rows
        → Agree ds t.rows
        → IsValidSchedules cron (finish rows (fire_all cron started env ds t)).rows
    unfolding fire_all
    fire_all-IsValid [] t rows v0 v a = v
    fire_all-IsValid (d ∷ ds) t rows v0 v a =
        go (fire cron started d (env d) t) (fire-IsKept d ds t v a.0 a.1)
          (λ t' k. fire_all-IsValid ds t' rows v0 k.0 k.1)
      where
        go :
            (e : Ended)
            → IsKept ds e
            → ((t' : Tick)
                → IsKept ds (committed t')
                → IsValidSchedules cron (finish rows (fire_all cron started env ds t')).rows)
            → IsValidSchedules cron (finish rows (and_then e (fire_all cron started env ds))).rows
        go (committed t') k rest = rest t' k
        go (raised t') k rest = v0

  -- Rows with distinct ids agree with each other.
  self-Agrees :
      (d : ScheduledJob) (rows all : List ScheduledJob)
      → find schedule_id_of d.schedule_id all ≡ some d
      → All (λ r. find schedule_id_of r.schedule_id all ≡ some r) rows
      → All (Agrees d) rows
  self-Agrees d [] all e a = tt
  self-Agrees d (r ∷ rows) all e a =
      (λ same. ground (arith, eq_iff r.schedule_id d.schedule_id), self-Agrees d rows all e a.1)

  -- `order` is any order of the rows in it.
  pub tick-IsValidSchedules :
      (order : List ScheduledJob → List ScheduledJob)
      → ((P : ScheduledJob → Type 0) (rows : List ScheduledJob) → All P rows → All P (order rows))
      → (got_lock : Bool) (now : ℕ) (env : ScheduledJob → Fire) (rows : List ScheduledJob)
      → IsValidSchedules cron rows
      → IsValidSchedules cron (tick order cron got_lock now env rows).rows
  unfolding tick
  tick-IsValidSchedules order order-All false now env rows v = v
  tick-IsValidSchedules order order-All true now env rows v =
      let Self : ScheduledJob → Type 0 = λ r. find schedule_id_of r.schedule_id rows ≡ some r in
      let self = find_self schedule_id_of rows v.ids in
      let picked = keep-All Self (is_due now) rows self in
      let due = take 50 (order (keep (is_due now) rows)) in
      let ordered =
        take-All Self 50 (order (keep (is_due now) rows))
          (order-All Self (keep (is_due now) rows) picked) in
      fire_all-IsValid now env due (record { rows = rows; published = [] }) rows v v
        (All-imp Self (λ d. All (Agrees d) rows) due (λ d e. self-Agrees d rows rows e self)
          ordered)
