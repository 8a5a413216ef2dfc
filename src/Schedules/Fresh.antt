-- ===== src/Schedules/Fresh.antt =====
-- The invariant of the table `scheduled_jobs`, under the API and under the orchestrator's ticks.
use dhp.Prelude.{ℕ, String, none, some, List, [], ◌∷◌, ◌++◌, map, ◌≡◌, sym, All, All-append}
use dhp.Prelude.Rows.{
  add-Distinct, Distinct, find, save, map-save, save-All, remove, remove-Distinct, remove-All,
  key-find,
}
use dhp.Orchestrator.Scheduler.{ScheduledJob, Cron}
use dhp.Schedules.{schedule_id_of, name_of}

-- The next run of a row is one of its own expression in its own zone.
abbrev pub IsScheduled : Cron → ScheduledJob → Type 0
IsScheduled cron r = (base : ℕ) × (cron r.cron_expression r.timezone base ≡ some r.next_run_at)

pub record IsValidSchedules (cron : Cron) (rows : List ScheduledJob) : Type 0 where
  pub ids : Distinct (map schedule_id_of rows)
  pub names : Distinct (map name_of rows)
  pub scheduled : All (IsScheduled cron) rows

module _ (cron : Cron) where
  pub add-IsValidSchedules :
      (r : ScheduledJob) (rows : List ScheduledJob)
      → find schedule_id_of r.schedule_id rows ≡ none
      → find name_of r.name rows ≡ none
      → IsScheduled cron r
      → IsValidSchedules cron rows
      → IsValidSchedules cron (rows ++ r ∷ [])
  add-IsValidSchedules r rows fresh_id fresh_name next v = record {
    ids = add-Distinct schedule_id_of r rows fresh_id v.ids;
    names = add-Distinct name_of r rows fresh_name v.names;
    scheduled = All-append (IsScheduled cron) rows (r ∷ []) v.scheduled (next, tt);
  }

  pub save-IsValidSchedules :
      (r old : ScheduledJob) (rows : List ScheduledJob)
      → find schedule_id_of r.schedule_id rows ≡ some old
      → r.name ≡ old.name
      → IsScheduled cron r
      → IsValidSchedules cron rows
      → IsValidSchedules cron (save schedule_id_of r rows)
  save-IsValidSchedules r old rows found same next v = record {
    ids =
        rw
          (map-save schedule_id_of schedule_id_of r rows {old = old} found
            (sym (key-find schedule_id_of r.schedule_id rows {r = old} found)))
          v.ids;
    names = rw (map-save schedule_id_of name_of r rows {old = old} found same) v.names;
    scheduled = save-All schedule_id_of (IsScheduled cron) r rows next v.scheduled;
  }

  pub remove-IsValidSchedules :
      (k : String) (rows : List ScheduledJob)
      → IsValidSchedules cron rows
      → IsValidSchedules cron (remove schedule_id_of k rows)
  remove-IsValidSchedules k rows v = record {
    ids = remove-Distinct schedule_id_of schedule_id_of k rows v.ids;
    names = remove-Distinct schedule_id_of name_of k rows v.names;
    scheduled = remove-All schedule_id_of (IsScheduled cron) k rows v.scheduled;
  }
