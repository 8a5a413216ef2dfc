-- ===== src/Orchestrator/Fires.antt =====
-- What a tick of the scheduler does to the table and to the topic.
use dhp.Prelude.{
  ℕ, suc, ◌+◌, ◌≤◌, ◌<◌, String, Bool, true, false, Option, none, some, List, [], ◌∷◌, ◌++◌, map,
  ◌≡◌, refl, arith, if◌then◌else◌, str_eq, length, All, ap, ◌∙◌, sym, Bool-cases, Option-cases, inl,
  inr, not, ◌||◌, is_some,
}
use native.Mathlib.Nat.{le_trans}
use dhp.Prelude.Dict.{Dict, lookup, lookup-insert}
use dhp.Json.{Json, str, bool}
use dhp.Orchestrator.Scheduler.{
  ScheduledJob, Fire, Cron, Tick, Ended, committed, raised, is_due, fired_event, stamp, returned,
  publish, is_stored, fire, fire_all, finish, and_then,
}

-- A fired event names its own job and schedule, whatever the template holds under these keys; every
-- other key of the template is passed on.
lookup-fired_event :
    (r : ScheduledJob) (job_id key : String)
    → lookup key (fired_event r job_id) ≡ (
        if str_eq "schedule_name" key
        then some (str r.name)
        else if str_eq "schedule_id" key
        then some (str r.schedule_id)
        else if str_eq "scheduled" key
        then some (bool true)
        else if str_eq "job_id" key
        then some (str job_id)
        else lookup key r.job_template)
unfolding fired_event
lookup-fired_event r job_id key = simp lookup-insert

-- The stamp of a schedule: the run's id, its instant and the next one.
pub record Stamp : Type 0 where
  pub job_id : String
  pub now : ℕ
  pub nxt : ℕ

abbrev pub stamped : Option Stamp → ScheduledJob → ScheduledJob
stamped none r = r
stamped (some s) r = record r {
  last_run_at = some s.now;
  last_run_job_id = some s.job_id;
  next_run_at = s.nxt;
}

module _ (cron : Cron) (started : ℕ) (env : ScheduledJob → Fire) where
  -- The cases of one fire.
  data Fired (d : ScheduledJob) (t : Tick) : Ended → Type 0 where
    skipped : returned (env d).delivery ≡ false → Fired d t (committed (publish d (env d) t))
    broken :
        returned (env d).delivery ≡ true
        → cron d.cron_expression d.timezone (env d).now ≡ none
        → Fired d t (raised (publish d (env d) t))
    advanced :
        (nxt : ℕ)
        → returned (env d).delivery ≡ true
        → cron d.cron_expression d.timezone (env d).now ≡ some nxt
        → Fired d t (
            committed (record (publish d (env d) t) {
              rows = stamp d.schedule_id (env d).job_id started nxt (publish d (env d) t).rows;
            }))

  fire-Fired : (d : ScheduledJob) (t : Tick) → Fired d t (fire cron started d (env d) t)
  unfolding fire
  fire-Fired d t = elim (Bool-cases (returned (env d).delivery)) [
    | inr no_reply ↦ rw (no_reply, fire) (skipped no_reply)
    | inl reply ↦ elim (Option-cases (cron d.cron_expression d.timezone (env d).now)) [
      | inl bad ↦ rw (reply, bad, fire) (broken reply bad)
      | inr (nxt, good) ↦ rw (reply, good, fire) (advanced nxt reply good)
    ]
  ]

  length-publish :
      (d : ScheduledJob) (t : Tick)
      → length (publish d (env d) t).published ≤ suc (length t.published)
  length-publish d t = ground arith

  -- The stamp that one due row gives, where its publication returned.
  abbrev pub stamp_of : ScheduledJob → Option Stamp
  stamp_of d =
      if returned (env d).delivery
      then elim (cron d.cron_expression d.timezone (env d).now) [
        | none ↦ none
        | some nxt ↦ some (record { job_id = (env d).job_id; now = started; nxt = nxt })
      ]
      else none

  -- The stamp that the due rows give to an id: the last one counts.
  unfoldable pub firing : List ScheduledJob → String → Option Stamp
  firing [] sid = none
  firing (d ∷ ds) sid = elim (firing ds sid) [
    | some x ↦ some x
    | none ↦ if str_eq sid d.schedule_id then stamp_of d else none
  ]

  abbrev pub after : List ScheduledJob → ScheduledJob → ScheduledJob
  after due r = stamped (firing due r.schedule_id) r

  map-after_nil : (rows : List ScheduledJob) → map (after []) rows ≡ rows
  unfolding firing
  map-after_nil [] = refl
  map-after_nil (r ∷ rs) = ap (◌∷◌ r) (map-after_nil rs)

  map-after_skipped :
      (d : ScheduledJob) (ds rows : List ScheduledJob)
      → returned (env d).delivery ≡ false
      → map (after (d ∷ ds)) rows ≡ map (after ds) rows
  unfolding firing
  map-after_skipped d ds [] no_reply = refl
  map-after_skipped d ds (r ∷ rs) no_reply = ground (arith, map-after_skipped d ds rs no_reply)

  map-after-stamp :
      (d : ScheduledJob) (ds rows : List ScheduledJob) (nxt : ℕ)
      → returned (env d).delivery ≡ true
      → cron d.cron_expression d.timezone (env d).now ≡ some nxt
      → map (after ds) (stamp d.schedule_id (env d).job_id started nxt rows)
        ≡ map (after (d ∷ ds)) rows
  unfolding firing
  map-after-stamp d ds [] nxt reply good = refl
  map-after-stamp d ds (r ∷ rs) nxt reply good =
      ground (arith, map-after-stamp d ds rs nxt reply good)

  rows-publish : (d : ScheduledJob) (t : Tick) → (publish d (env d) t).rows ≡ t.rows
  rows-publish d t = ground arith

  pub rows-fire_all :
      (due : List ScheduledJob) (t : Tick) {t' : Tick}
      → fire_all cron started env due t ≡ committed t'
      → t'.rows ≡ map (after due) t.rows
  unfolding fire_all
  rows-fire_all [] t e = ground (arith, map-after_nil t.rows)
  rows-fire_all (d ∷ ds) t {t'} e =
      go (fire cron started d (env d) t) (fire-Fired d t)
        (λ (t₁ : Tick) (h : fire_all cron started env ds t₁ ≡ committed t'). rows-fire_all ds t₁ h)
        e
    where
      go :
          (x : Ended)
          → Fired d t x
          → ((t₁ : Tick)
              → fire_all cron started env ds t₁ ≡ committed t'
              → t'.rows ≡ map (after ds) t₁.rows)
          → and_then x (fire_all cron started env ds) ≡ committed t'
          → t'.rows ≡ map (after (d ∷ ds)) t.rows
      go _ (skipped no_reply) ih h =
          ih _ h ∙ rw rows-publish (sym (map-after_skipped d ds t.rows no_reply))
      go _ (broken reply bad) ih h = cc
      go _ (advanced nxt reply good) ih h =
          ih _ h ∙ rw rows-publish (map-after-stamp d ds t.rows nxt reply good)

  pub length-fire_all :
      (due : List ScheduledJob) (t : Tick) (rows : List ScheduledJob)
      → length (finish rows (fire_all cron started env due t)).published
        ≤ length due + length t.published
  unfolding fire_all
  length-fire_all [] t rows = omega arith
  length-fire_all (d ∷ ds) t rows =
      go (fire cron started d (env d) t) (fire-Fired d t) (λ t'. length-fire_all ds t' rows)
    where
      go :
          (e : Ended)
          → Fired d t e
          → ((t' : Tick)
              → length (finish rows (fire_all cron started env ds t')).published
                ≤ length ds + length t'.published)
          → length (finish rows (and_then e (fire_all cron started env ds))).published
            ≤ suc (length ds) + length t.published
      go _ (skipped no_reply) ih = omega (arith, ih (publish d (env d) t), length-publish d t)
      go _ (broken reply bad) ih = omega (arith, length-publish d t)
      go _ (advanced nxt reply good) ih = le_trans (ih _) (omega (arith, length-publish d t))

  -- The fire of a row does not raise: its publication raises, which is handled, or its next instant
  -- can be computed.
  abbrev pub is_sound : ScheduledJob → Bool
  is_sound d =
      not (returned (env d).delivery) || is_some (cron d.cron_expression d.timezone (env d).now)

  -- The events of the due rows that the broker has stored, newest first, before those of `rest`.
  unfoldable pub events : List ScheduledJob → List (String × Dict Json) → List (String × Dict Json)
  events [] rest = rest
  events (d ∷ ds) rest = events ds (
      if is_stored (env d).delivery
      then ((env d).job_id, fired_event d (env d).job_id) ∷ rest
      else rest)

  published-publish :
      (d : ScheduledJob) (ds : List ScheduledJob) (t : Tick)
      → events ds (publish d (env d) t).published ≡ events (d ∷ ds) t.published
  unfolding events
  published-publish d ds t = ground arith

  pub publish-events :
      (d : ScheduledJob) (t : Tick) → (publish d (env d) t).published ≡ events (d ∷ []) t.published
  unfolding events
  publish-events d t = ground arith

  pub fire_all-append :
      (ds es : List ScheduledJob) (t : Tick)
      → fire_all cron started env (ds ++ es) t
        ≡ and_then (fire_all cron started env ds t) (fire_all cron started env es)
  unfolding fire_all
  fire_all-append [] es t = refl
  fire_all-append (d ∷ ds) es t = go (fire cron started d (env d) t) (fire_all-append ds es)
    where
      go :
          (x : Ended)
          → ((t' : Tick)
              → fire_all cron started env (ds ++ es) t'
                ≡ and_then (fire_all cron started env ds t') (fire_all cron started env es))
          → and_then x (fire_all cron started env (ds ++ es))
            ≡ and_then (and_then x (fire_all cron started env ds)) (fire_all cron started env es)
      go (committed t') ih = ih t'
      go (raised t') ih = refl

  pub events-append :
      (ds es : List ScheduledJob) (rest : List (String × Dict Json))
      → events (ds ++ es) rest ≡ events es (events ds rest)
  unfolding events
  events-append [] es rest = refl
  events-append (d ∷ ds) es rest = events-append ds es _

  pub fire_all_broken :
      (d : ScheduledJob) (es : List ScheduledJob) (t : Tick)
      → returned (env d).delivery ≡ true
      → cron d.cron_expression d.timezone (env d).now ≡ none
      → fire_all cron started env (d ∷ es) t ≡ raised (publish d (env d) t)
  unfolding fire_all fire
  fire_all_broken d es t reply bad = rw (reply, bad, fire, fire_all)

  firing-later :
      ((expression zone : String) (now nxt : ℕ) → cron expression zone now ≡ some nxt → now < nxt)
      → ((d : ScheduledJob) → started ≤ (env d).now)
      → (ds : List ScheduledJob) (sid : String) (s : Stamp) → firing ds sid ≡ some s
      → s.now < s.nxt
  unfolding firing
  firing-later later past [] sid s e = cc
  firing-later later past (d ∷ ds) sid s e = elim (Option-cases (firing ds sid)) [
    | inr (x, more) ↦ firing-later later past ds sid s (ground arith)
    | inl last ↦ elim (Option-cases (cron d.cron_expression d.timezone (env d).now)) [
      | inl bad ↦ absurd (ground arith)
      | inr (nxt, good) ↦
          let h = later d.cron_expression d.timezone (env d).now nxt good in
          let since = past d in ground arith
    ]
  ]

  -- A row that a tick stamps is no longer due at the start of the tick, so that a second tick within the same
  -- instant does not fire it again. This holds where the next instant of an expression lies after the
  -- instant that it is asked for, and the process's clock reads nothing before the transaction's start.
  after_not_due :
      ((expression zone : String) (now nxt : ℕ) → cron expression zone now ≡ some nxt → now < nxt)
      → ((d : ScheduledJob) → started ≤ (env d).now)
      → (ds : List ScheduledJob) (r : ScheduledJob) (s : Stamp) → firing ds r.schedule_id ≡ some s
      → is_due s.now (after ds r) ≡ false
  unfolding is_due
  after_not_due later past ds r s e =
      let h = firing-later later past ds r.schedule_id s e in ground arith

  pub fire_all_sound :
      (due : List ScheduledJob) (t : Tick)
      → All (λ d. is_sound d ≡ true) due
      → (t' : Tick) × (fire_all cron started env due t ≡ committed t')
        × (t'.published ≡ events due t.published)
  unfolding fire_all events
  fire_all_sound [] t sound = (t, refl, refl)
  fire_all_sound (d ∷ ds) t sound =
      go (fire cron started d (env d) t) (fire-Fired d t) (λ t₁. fire_all_sound ds t₁ sound.1)
    where
      go :
          (x : Ended)
          → Fired d t x
          → ((t₁ : Tick)
              → (t' : Tick) × (fire_all cron started env ds t₁ ≡ committed t')
                × (t'.published ≡ events ds t₁.published))
          → (t' : Tick) × (and_then x (fire_all cron started env ds) ≡ committed t')
            × (t'.published ≡ events (d ∷ ds) t.published)
      go _ (skipped no_reply) ih =
          let (t', ended, sent) = ih (publish d (env d) t) in
          (t', ended, sent ∙ published-publish d ds t)
      go _ (broken reply bad) ih = absurd (ground (arith, sound.0))
      go _ (advanced nxt reply good) ih =
          let (t', ended, sent) = ih _ in (t', ended, sent ∙ published-publish d ds t)
