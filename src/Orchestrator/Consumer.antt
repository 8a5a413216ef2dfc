-- ===== src/Orchestrator/Consumer.antt =====
-- services/orchestrator/app/consumer.py: `JobConsumer._process_message` as the sequence of what it does
-- to the outside, oldest first, and the decision of `CancellationConsumer`.
use dhp.Prelude.{
  ℕ, suc, zero, ◌+◌, ◌^◌, min, String, Option, none, some, List, [], ◌∷◌, ◌++◌, ltb, if◌then◌else◌,
  format, truthy?, str_eq,
}
use dhp.Prelude.Int.{ℤ, pos_part}
use dhp.Prelude.Dict.{Dict, lookup}
use dhp.Json.{Json, str}
use dhp.Orchestrator.{Settings, Python, int_field}
use dhp.Orchestrator.Ecs.{
  Answer, launched, refused, LaunchError, RunTask, create_spark_job, Deletion, failed, stopped,
}

-- The body of a status callback.
pub record StatusPayload : Type 0 where
  pub status : String
  pub container_id : Option String
  pub error_message : Option String

pub record DlqRequest : Type 0 where
  pub original_event : Dict Json
  pub error : String
  pub attempts : ℤ

pub data Action : Type 0 where
  put_status : String → StatusPayload → Action
  run_task : RunTask → Action
  count_launch : String → Action
  count_retry count_dlq : Action
  sleep : ℕ → Action
  publish_dlq : DlqRequest → Action

-- `event.get("job_id", "unknown")`, as the URL of the callback writes it.
abbrev pub event_id : Python → Dict Json → String
event_id py event = elim (lookup "job_id" event) [
  | none ↦ "unknown"
  | some v ↦ elim v [ str s ↦ s | other ↦ py.to_str other ]
]

-- `_update_job_status` swallows every error of the callback, so that it is one action. Empty
-- texts are not sent.
abbrev sent_if : Option String → Option String
sent_if o = if truthy? o then o else none

abbrev pub update_job_status : String → String → Option String → Option String → Action
update_job_status job_id status container_id error_message = put_status job_id (record {
  status = status;
  container_id = sent_if container_id;
  error_message = sent_if error_message;
})

-- `if attempt < max_retries`: count and wait before the next attempt.
abbrev pub backoff : ℕ → ℕ → List Action
backoff attempt max_retries =
    if ltb attempt max_retries then count_retry ∷ sleep (min (2 ^ attempt) 30) ∷ [] else []

abbrev pub ran : Option RunTask → List Action
ran none = []
ran (some request) = run_task request ∷ []

-- `describe` is the text of the last error in the message: `None` if no attempt was made.
module _ (s : Settings) (py : Python) (describe : Option LaunchError → String)
    (event : Dict Json) where
  abbrev pub job_id_of : String
  job_id_of = event_id py event

  abbrev pub err_msg : ℤ → Option LaunchError → String
  err_msg n last =
      format ("Task launch failed after " ∷ py.int_to_str n ∷ " attempts: " ∷ describe last ∷ [])

  -- What follows the loop.
  abbrev pub exhausted : ℤ → Option LaunchError → List Action
  exhausted n last =
      count_launch "dlq"
      ∷ count_dlq
      ∷ update_job_status job_id_of "FAILED" none (some (err_msg n last))
      ∷ publish_dlq (record { original_event = event; error = err_msg n last; attempts = n })
      ∷ []

  -- The loop from an attempt on, with `left` rounds of the range left; `answers` is what ECS does at
  -- each attempt.
  unfoldable pub attempts : (ℕ → Answer) → ℤ → ℕ → ℕ → Option LaunchError → List Action
  attempts answers n zero attempt last = exhausted n last
  attempts answers n (suc left) attempt last =
      let (request, outcome) = create_spark_job s py event (answers attempt) in
      update_job_status job_id_of "PROVISIONING" none none
      ∷ (ran request ++ elim outcome [
        | launched arn ↦
            update_job_status job_id_of "PROVISIONING" (some arn) none ∷ count_launch "success" ∷ []
        | refused e ↦
            count_launch "retry"
            ∷ (backoff attempt (pos_part n) ++ attempts answers n left (attempt + 1) (some e))
      ])

  -- `_process_message`; `none` where `int(…)` raises, which ends the consumer.
  unfoldable pub process_message : (ℕ → Answer) → Option (List Action)
  process_message answers = elim (int_field py "max_retries" s.default_max_retries event) [
    | none ↦ none
    | some n ↦ some (attempts answers n (pos_part n) 1 none)
  ]

-- `CancellationConsumer`: the job that an event asks to stop.
unfoldable pub cancellation : Dict Json → Option (Option Json)
cancellation event = elim (lookup "action" event) [
  | none ↦ none
  | some v ↦ elim v [
    | str a ↦ (if str_eq a "cancel" then some (lookup "job_id" event) else none)
    | _ ↦ none
  ]
]

-- What the loop of `CancellationConsumer` counts for an event, by what `delete_spark_job` does; an id that is
-- no text raises in it.
unfoldable pub cancelled : (String → Deletion) → Dict Json → Option String
unfolding cancellation
cancelled delete event = elim (cancellation event) [
  | none ↦ none
  | some job_id ↦ elim job_id [
    | none ↦ some "error"
    | some v ↦ elim v [
      | str i ↦ elim (delete i) [ failed arns ↦ some "error" | stopped arns any ↦ some "success" ]
      | _ ↦ some "error"
    ]
  ]
]

-- The loop of `CancellationConsumer.start` over the events until it is cancelled: what it counts, in order.
unfoldable pub cancelled_all : (String → Deletion) → List (Dict Json) → List String
cancelled_all delete [] = []
cancelled_all delete (event ∷ events) =
    let rest = cancelled_all delete events in
    elim (cancelled delete event) [ none ↦ rest | some outcome ↦ outcome ∷ rest ]
