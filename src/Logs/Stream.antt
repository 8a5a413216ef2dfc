-- ===== src/Logs/Stream.antt =====
-- What the event stream sends of the logs that it polls.
use dhp.Prelude.{
  ◌≤◌, String, Bool, true, false, Option, none, some, List, [], ◌∷◌, ◌++◌, ◌≡◌, ◌⊎◌, inl, inr, refl,
  ap, arith, if◌then◌else◌, length, length-map, All, Bool-cases, map,
}
use dhp.Logs.{LogEntry, LokiAnswer, Clock, query_logs}
use dhp.Logs.Router.{is_new, send_new, event_generator}

module _ (after : String → String → Bool) where
  -- No line is newer than the first, as Loki answers a query with `direction=backward` over one stream.
  abbrev pub IsNewestFirst : List LogEntry → Type 0
  IsNewestFirst [] = Unit
  IsNewestFirst (log ∷ logs) = All (λ l. after l.timestamp log.timestamp ≡ false) logs

  -- Of each poll the first line, if it is newer than the last one sent.
  unfoldable pub newest : List (List LogEntry) → Option String → List LogEntry
  newest [] last = []
  newest ([] ∷ polls) last = newest polls last
  newest ((log ∷ logs) ∷ polls) last =
      let sent = newest polls (some log.timestamp) in
      let rest = newest polls last in if is_new after last log then log ∷ sent else rest

  none_new :
      (logs : List LogEntry) (t : String)
      → All (λ l. after l.timestamp t ≡ false) logs
      → send_new after logs (some t) ≡ ([], some t)
  unfolding send_new
  none_new [] t h = refl
  none_new (log ∷ logs) t h = rw (h.0, none_new logs t h.1) refl

  -- A later instant than another one is later than any third one, or that is later than the other one.
  abbrev pub IsOrder : Type 0
  IsOrder = (s t u : String) → after s u ≡ true → (after s t ≡ true) ⊎ (after t u ≡ true)

  module _ (ordered : IsOrder) where
    not_newer :
        (logs : List LogEntry) (s t : String)
        → after s t ≡ false
        → All (λ l. after l.timestamp s ≡ false) logs
        → All (λ l. after l.timestamp t ≡ false) logs
    not_newer [] s t e h = tt
    not_newer (log ∷ logs) s t e h = (
      elim (Bool-cases (after log.timestamp t)) [
        | inr old ↦ old
        | inl new ↦ elim (ordered log.timestamp s t new) [
          | inl later ↦ absurd (ground (arith, h.0))
          | inr later ↦ absurd (ground arith)
        ]
      ],
      not_newer logs s t e h.1,
    )

    one_poll :
        (log : LogEntry) (logs : List LogEntry) (last : Option String)
        → IsNewestFirst (log ∷ logs)
        → send_new after (log ∷ logs) last
          ≡ (if is_new after last log then (log ∷ [], some log.timestamp) else ([], last))
    unfolding send_new
    one_poll log logs none h = rw (none_new logs log.timestamp h) refl
    one_poll log logs (some t) h = elim (Bool-cases (after log.timestamp t)) [
      | inl new ↦ rw (new, none_new logs log.timestamp h) refl
      | inr old ↦ rw (old, none_new logs t (not_newer logs log.timestamp t old h)) refl
    ]

    poll_step :
        (logs : List LogEntry) (polls : List (List LogEntry)) (rest : Option String → List LogEntry)
        → ((t : Option String) → rest t ≡ newest polls t)
        → IsNewestFirst logs
        → (last : Option String)
        → (send_new after logs last).0 ++ rest (send_new after logs last).1
          ≡ newest (logs ∷ polls) last
    unfolding newest send_new
    poll_step [] polls rest same h last = same last
    poll_step (log ∷ logs) polls rest same h last =
        rw (one_poll log logs last h) (elim (Bool-cases (is_new after last log)) [
          | inl new ↦ rw new (ap (◌∷◌ log) (same (some log.timestamp)))
          | inr old ↦ rw old (same last)
        ])

    generated :
        (clock : Clock) (job_id : String) (answers : List LokiAnswer) (last : Option String)
        → All (λ a. IsNewestFirst (query_logs clock job_id a)) answers
        → event_generator after clock job_id answers last
          ≡ newest (map (query_logs clock job_id) answers) last
    unfolding event_generator newest
    generated clock job_id [] last h = refl
    generated clock job_id (a ∷ answers) last h =
        poll_step (query_logs clock job_id a) (map (query_logs clock job_id) answers)
          (event_generator after clock job_id answers) (λ t. generated clock job_id answers t h.1)
          h.0 last

  length-newest :
      (polls : List (List LogEntry)) (last : Option String)
      → length (newest polls last) ≤ length polls
  unfolding newest
  length-newest [] last = omega arith
  length-newest ([] ∷ polls) last = omega (arith, length-newest polls last)
  length-newest ((log ∷ logs) ∷ polls) last =
      ground (arith, length-newest polls last, length-newest polls (some log.timestamp))

-- Where every poll is answered newest first and the texts of time stamps are ordered, the stream sends of each
-- poll the first line alone, and only if it is newer than the last line sent, so that there are at most as
-- many events as polls.
pub stream_newest :
    (after : String → String → Bool) (clock : Clock) (job_id : String) (answers : List LokiAnswer)
    → IsOrder after
    → All (λ a. IsNewestFirst after (query_logs clock job_id a)) answers
    → (event_generator after clock job_id answers none
        ≡ newest after (map (query_logs clock job_id) answers) none)
      × (length (event_generator after clock job_id answers none) ≤ length answers)
stream_newest after clock job_id answers ordered h =
    let same = generated after ordered clock job_id answers none h in
    let few = length-newest after (map (query_logs clock job_id) answers) none in
    (same, rw same (omega (arith, few, length-map (query_logs clock job_id) answers)))
