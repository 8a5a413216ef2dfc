-- ===== src/Schedules/System.antt =====
-- The table `scheduled_jobs` under both of its users: the requests of the API and the ticks of the
-- orchestrator, in any interleaving of their transactions.
use dhp.Prelude.{
  ℕ, String, Bool, some, List, [], ◌∷◌, ◌≡◌, refl, arith, All, is_some, Option-cases, Bool-cases,
  inl, inr, ◌||◌, subst,
}
use dhp.Prelude.Rows.{find, find_found, find-All}
use dhp.Kafka.{Broker}
use dhp.Job.Service.{World, create_job}
use dhp.Orchestrator.Scheduler.{ScheduledJob, Fire, tick}
use dhp.Schedules.{
  Libraries, ScheduleCreateRequest, ScheduleUpdateRequest, schedule_id_of, name_of, new_schedule,
  patched, rescheduled, triggered, create_schedule, update_schedule, delete_schedule,
  trigger_schedule,
}
use dhp.Schedules.Fresh.{
  IsScheduled, IsValidSchedules, add-IsValidSchedules, save-IsValidSchedules,
  remove-IsValidSchedules,
}
use dhp.Schedules.Ticked.{tick-IsValidSchedules}

-- One transaction on the table.
pub data Transaction : Type 0 where
  created : String → ℕ → ScheduleCreateRequest → Transaction
  patched_by : String → ℕ → ScheduleUpdateRequest → Transaction
  deleted : String → Transaction
  triggered_by : String → String → ℕ → ℕ → Broker → Transaction
  ticked : Bool → ℕ → (ScheduledJob → Fire) → Transaction

module _ (l : Libraries) (order : List ScheduledJob → List ScheduledJob) where
  -- The rows after a transaction. The jobs of the world change only under a manual run.
  unfoldable pub run : Transaction → List ScheduledJob × World → List ScheduledJob × World
  run (created i now q) (rows, w) = ((create_schedule l i now q rows).1, w)
  run (patched_by i now q) (rows, w) = ((update_schedule l i now q rows).1, w)
  run (deleted i) (rows, w) = ((delete_schedule l i rows).1, w)
  run (triggered_by i j now later b) (rows, w) =
      let (reply, rows', w') = trigger_schedule l i j now later b rows w in (rows', w')
  run (ticked lock now env) (rows, w) = ((tick order l.next_run lock now env rows).rows, w)

  unfoldable pub run_all : List Transaction → List ScheduledJob × World → List ScheduledJob × World
  run_all [] s = s
  run_all (t ∷ ts) s = run_all ts (run t s)

  create-IsValidSchedules :
      (i : String) (now : ℕ) (q : ScheduleCreateRequest) (rows : List ScheduledJob)
      → IsValidSchedules l.next_run rows
      → IsValidSchedules l.next_run (create_schedule l i now q rows).1
  unfolding create_schedule
  create-IsValidSchedules i now q rows v =
      elim (Option-cases (l.next_run q.cron_expression q.timezone now)) [
        | inl bad ↦ ground arith
        | inr (next, e) ↦ elim (Option-cases (find schedule_id_of i rows)) [
          | inr (old, taken) ↦ ground arith
          | inl fresh ↦ elim (Option-cases (find name_of q.name rows)) [
            | inr (old, taken) ↦ ground arith
            | inl free ↦
                let added =
                  add-IsValidSchedules l.next_run (new_schedule l i q next) rows fresh free (now, e)
                    v in
                ground arith
          ]
        ]
      ]

  -- A patched row keeps its id and its name, and its next run is one of its own.
  rescheduled_row :
      (now : ℕ) (q : ScheduleUpdateRequest) (r : ScheduledJob) {r' : ScheduledJob}
      → IsScheduled l.next_run r
      → rescheduled l now q (patched l q r) ≡ some r'
      → (r'.schedule_id ≡ r.schedule_id) × (r'.name ≡ r.name) × IsScheduled l.next_run r'
  rescheduled_row now q r {r'} next e =
      let p = patched l q r in
      let Kept : ScheduledJob → Type 0 =
        λ s. (s.schedule_id ≡ r.schedule_id) × (s.name ≡ r.name) × IsScheduled l.next_run s in
      elim (Bool-cases (is_some q.cron_expression || is_some q.timezone)) [
        | inl moved ↦ elim (Option-cases (l.next_run p.cron_expression p.timezone now)) [
          | inl bad ↦ absurd (ground arith)
          | inr (nxt, good) ↦
              let at : record p { next_run_at = nxt } ≡ r' = ground arith in
              subst Kept at (refl, refl, (now, good))
        ]
        | inr kept ↦
            let at : p ≡ r' = ground arith in
            let same_cron : p.cron_expression ≡ r.cron_expression = ground arith in
            let same_zone : p.timezone ≡ r.timezone = ground arith in
            subst Kept at (refl, refl, (next.0, rw (same_cron, same_zone) next.1))
      ]

  update-IsValidSchedules :
      (i : String) (now : ℕ) (q : ScheduleUpdateRequest) (rows : List ScheduledJob)
      → IsValidSchedules l.next_run rows
      → IsValidSchedules l.next_run (update_schedule l i now q rows).1
  unfolding update_schedule
  update-IsValidSchedules i now q rows v = elim (Option-cases (find schedule_id_of i rows)) [
    | inl missing ↦ ground arith
    | inr (r, found) ↦ elim (Option-cases (rescheduled l now q (patched l q r))) [
      | inl bad ↦ ground arith
      | inr (r', e) ↦
          let (same_id, same_name, next) =
            rescheduled_row now q r
              (find-All schedule_id_of (IsScheduled l.next_run) i rows v.scheduled found) e in
          let kept =
            save-IsValidSchedules l.next_run r' r rows
              (rw same_id (find_found schedule_id_of i rows found)) same_name next v in
          ground arith
    ]
  ]

  delete-IsValidSchedules :
      (i : String) (rows : List ScheduledJob)
      → IsValidSchedules l.next_run rows
      → IsValidSchedules l.next_run (delete_schedule l i rows).1
  unfolding delete_schedule
  delete-IsValidSchedules i rows v =
      let smaller = remove-IsValidSchedules l.next_run i rows v in ground arith

  trigger-IsValidSchedules :
      (i j : String) (now later : ℕ) (b : Broker) (rows : List ScheduledJob) (w : World)
      → IsValidSchedules l.next_run rows
      → IsValidSchedules l.next_run (trigger_schedule l i j now later b rows w).1
  unfolding trigger_schedule
  trigger-IsValidSchedules i j now later b rows w v =
      elim (Option-cases (find schedule_id_of i rows)) [
        | inl missing ↦ ground arith
        | inr (r, found) ↦ elim (Option-cases (l.model_validate r.job_template)) [
          | inl bad ↦ ground arith
          | inr (template, valid) ↦ elim (Option-cases (create_job j now b template w).0) [
            | inl clash ↦ ground arith
            | inr (reply, made) ↦
                let kept =
                  save-IsValidSchedules l.next_run (triggered l reply.job_id later r) r rows
                    (find_found schedule_id_of i rows found) refl
                    (find-All schedule_id_of (IsScheduled l.next_run) i rows v.scheduled found) v in
                ground arith
          ]
        ]
      ]

  run-IsValidSchedules :
      ((P : ScheduledJob → Type 0) (rows : List ScheduledJob) → All P rows → All P (order rows))
      → (t : Transaction) (s : List ScheduledJob × World) → IsValidSchedules l.next_run s.0
      → IsValidSchedules l.next_run (run t s).0
  unfolding run
  run-IsValidSchedules order-All (created i now q) s v = create-IsValidSchedules i now q s.0 v
  run-IsValidSchedules order-All (patched_by i now q) s v = update-IsValidSchedules i now q s.0 v
  run-IsValidSchedules order-All (deleted i) s v = delete-IsValidSchedules i s.0 v
  run-IsValidSchedules order-All (triggered_by i j now later b) s v =
      trigger-IsValidSchedules i j now later b s.0 s.1 v
  run-IsValidSchedules order-All (ticked lock now env) s v =
      tick-IsValidSchedules l.next_run order order-All lock now env s.0 v

  -- Whatever requests to the schedules API and ticks of the orchestrator follow each other, if the
  -- table `scheduled_jobs` has distinct ids, distinct names and in each row a next run that belongs
  -- to its own expression and zone, it stays so: no change of an expression or a zone leaves a next
  -- run of the old one. The order in which the database returns due rows is any that returns rows of
  -- the table.
  pub run_all-IsValidSchedules :
      ((P : ScheduledJob → Type 0) (rows : List ScheduledJob) → All P rows → All P (order rows))
      → (ts : List Transaction) (s : List ScheduledJob × World) → IsValidSchedules l.next_run s.0
      → IsValidSchedules l.next_run (run_all ts s).0
  unfolding run_all
  run_all-IsValidSchedules order-All [] s v = v
  run_all-IsValidSchedules order-All (t ∷ ts) s v =
      run_all-IsValidSchedules order-All ts (run t s) (run-IsValidSchedules order-All t s v)
