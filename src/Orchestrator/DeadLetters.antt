-- ===== src/Orchestrator/DeadLetters.antt =====
-- What `_process_message` does when no attempt launches a task.
use dhp.Prelude.{
  ℕ, ◌+◌, ◌-◌, ◌≤◌, ◌<◌, String, Option, none, some, List, [], ◌∷◌, ◌≡◌, refl, arith, format, subst,
  truthy-str_append,
}
use dhp.Prelude.Int.{ℤ, pos_part}
use dhp.Prelude.Dict.{Dict}
use dhp.Json.{Json}
use dhp.Orchestrator.{Settings, Python, int_field}
use dhp.Orchestrator.Ecs.{Answer, LaunchError, RunTask, run_task_request, launch_of}
use dhp.Orchestrator.Consumer.{
  Action, put_status, count_launch, count_dlq, publish_dlq, event_id, attempts, process_message,
  exhausted,
}
use dhp.Orchestrator.Launches.{IsRefused, Run, waits, fails}

-- The last acts for an event with budget `n` whose last error is `last`.
abbrev pub dead_ending :
    Python → (Option LaunchError → String) → Dict Json → ℤ → Option LaunchError → List Action
dead_ending py describe event n last =
    let text =
      format ("Task launch failed after " ∷ py.int_to_str n ∷ " attempts: " ∷ describe last ∷ []) in
    count_launch "dlq"
    ∷ count_dlq
    ∷ put_status (event_id py event)
        (record { status = "FAILED"; container_id = none; error_message = some text })
    ∷ publish_dlq (record { original_event = event; error = text; attempts = n })
    ∷ []

exhausted-dead_ending :
    (s : Settings) (py : Python) (describe : Option LaunchError → String) (event : Dict Json)
    (n : ℤ) (last : Option LaunchError)
    → exhausted s py describe event n last ≡ dead_ending py describe event n last
exhausted-dead_ending s py describe event n last =
    let rest = format (py.int_to_str n ∷ " attempts: " ∷ describe last ∷ []) in
    rw (truthy-str_append "Task launch failed after " rest refl) refl

-- An event whose request can be built, and whose retry budget is `n`: if every attempt of the budget
-- is refused, `run_task` is called `n` times, the waits are those of `n - 1` failures, and the
-- processing ends by the FAILED callback and one dead letter, which holds the original event, the
-- number of attempts and the text of the error.
pub process_message_dead_letters :
    (s : Settings) (py : Python) (describe : Option LaunchError → String) (event : Dict Json)
    (answers : ℕ → Answer) {request : RunTask} (builds : run_task_request s py event ≡ some request)
    (n : ℤ)
    → int_field py "max_retries" s.default_max_retries event ≡ some n
    → ((j : ℕ) → 1 ≤ j → j < 1 + pos_part n → IsRefused (launch_of (answers j)))
    → (t : List Action) × (last : Option LaunchError) × (process_message s py describe event answers
        ≡ some t)
      × Run s py describe event answers builds t
          (pos_part n)
          (waits 1 (pos_part n - 1))
          (dead_ending py describe event n last)
unfolding process_message
process_message_dead_letters s py describe event answers builds n budget all =
    let (last, run) =
      fails s py describe event answers builds n (pos_part n) 1 none (omega arith) all in
    (
      attempts s py describe event answers n (pos_part n) 1 none,
      last,
      rw (budget, process_message),
      subst
          (Run s py describe event answers builds
            (attempts s py describe event answers n (pos_part n) 1 none) (pos_part n)
            (waits 1 (pos_part n - 1)))
          (exhausted-dead_ending s py describe event n last) run,
    )

-- An event whose budget is not positive, 0 among them, is never launched: whatever ECS would answer
-- and whether its request can be built, nothing but the failure is reported, and the event goes to
-- the dead-letter topic after no attempt.
process_message_no_budget :
    (s : Settings) (py : Python) (describe : Option LaunchError → String) (event : Dict Json)
    (answers : ℕ → Answer) (n : ℤ)
    → int_field py "max_retries" s.default_max_retries event ≡ some n
    → pos_part n ≡ 0
    → process_message s py describe event answers ≡ some (dead_ending py describe event n none)
unfolding process_message attempts
process_message_no_budget s py describe event answers n budget empty =
    rw (budget, process_message, empty, attempts, exhausted-dead_ending s py describe event n none)
