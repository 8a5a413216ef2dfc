-- ===== src/Orchestrator/Launches.antt =====
-- What `_process_message` does with its retry budget.
use dhp.Prelude.{
  ℕ, suc, zero, ◌+◌, ◌-◌, ◌≤◌, ◌<◌, ◌^◌, min, String, Bool, true, false, Option, none, some, List,
  [], ◌∷◌, ◌++◌, ◌≡◌, refl, arith, lt→ltb, count, count-append, append_assoc,
}
use dhp.Prelude.Int.{ℤ, pos_part}
use dhp.Prelude.Dict.{Dict}
use dhp.Json.{Json}
use native.Mathlib.Decide.{ℕ_discrete}
use dhp.Orchestrator.{Settings, Python, int_field}
use dhp.Orchestrator.Ecs.{
  Answer, Launch, launched, refused, LaunchError, RunTask, create_spark_job, run_task_request,
  launch_of,
}
use dhp.Orchestrator.Consumer.{
  Action, put_status, run_task, count_launch, count_retry, count_dlq, sleep, publish_dlq, attempts,
  backoff, process_message, update_job_status, job_id_of, exhausted,
}

abbrev pub is_run : Action → Bool
is_run (run_task _) = true
is_run _ = false

abbrev pub is_dlq : Action → Bool
is_dlq (publish_dlq _) = true
is_dlq _ = false

-- The seconds spent in backoff.
abbrev pub waiting : List Action → ℕ
waiting [] = 0
waiting (sleep n ∷ rest) = n + waiting rest
waiting (_ ∷ rest) = waiting rest

-- The waits after `n` attempts from one on: 2, 4, 8, 16 seconds, and 30 from the fifth.
abbrev pub waits : ℕ → ℕ → ℕ
waits attempt zero = 0
waits attempt (suc n) = min (2 ^ attempt) 30 + waits (attempt + 1) n

waiting-append : (xs ys : List Action) → waiting (xs ++ ys) ≡ waiting xs + waiting ys
waiting-append [] ys = omega arith
waiting-append (sleep n ∷ xs) ys = omega (arith, waiting-append xs ys)
waiting-append (put_status i p ∷ xs) ys = waiting-append xs ys
waiting-append (run_task r ∷ xs) ys = waiting-append xs ys
waiting-append (count_launch o ∷ xs) ys = waiting-append xs ys
waiting-append (count_retry ∷ xs) ys = waiting-append xs ys
waiting-append (count_dlq ∷ xs) ys = waiting-append xs ys
waiting-append (publish_dlq r ∷ xs) ys = waiting-append xs ys

abbrev pub IsRefused : Launch → Type 0
IsRefused l = (e : LaunchError) × (l ≡ refused e)

module _ (s : Settings) (py : Python) (describe : Option LaunchError → String) (event : Dict Json)
    (answers : ℕ → Answer) {request : RunTask}
    (builds : run_task_request s py event ≡ some request) where
  -- What attempt `k` comes to.
  abbrev pub outcome : ℕ → Launch
  outcome k = launch_of (answers k)

  create-outcome : (k : ℕ) → create_spark_job s py event (answers k) ≡ (some request, outcome k)
  unfolding create_spark_job
  create-outcome k = rw (builds, create_spark_job)

  abbrev pub loop : ℤ → ℕ → ℕ → Option LaunchError → List Action
  loop = attempts s py describe event answers

  abbrev pub success_ending : String → List Action
  success_ending arn =
      update_job_status (job_id_of s py describe event) "PROVISIONING" (some arn) none
      ∷ count_launch "success"
      ∷ []

  -- A run of the loop: the calls of `run_task`, the waits, and how it ends.
  pub record Run (t : List Action) (runs wait : ℕ) (ending : List Action) : Type 0 where
    pub runs_lem : count is_run t ≡ runs + count is_run ending
    pub dlq_lem : count is_dlq t ≡ count is_dlq ending
    pub wait_lem : waiting t ≡ wait + waiting ending
    pub front : List Action
    pub ends : t ≡ front ++ ending

  abbrev pub tried : ℤ → ℕ → List Action
  tried n attempt =
      update_job_status (job_id_of s py describe event) "PROVISIONING" none none
      ∷ run_task request
      ∷ count_launch "retry"
      ∷ backoff attempt (pos_part n)

  pub loop_refused :
      (n : ℤ) (left attempt : ℕ) (last : Option LaunchError) (e : LaunchError)
      → outcome attempt ≡ refused e
      → loop n (suc left) attempt last ≡ tried n attempt ++ loop n left (attempt + 1) (some e)
  unfolding attempts
  loop_refused n left attempt last e refusal = rw (create-outcome attempt, refusal)

  pub loop_launched :
      (n : ℤ) (left attempt : ℕ) (last : Option LaunchError) (arn : String)
      → outcome attempt ≡ launched arn
      → loop n (suc left) attempt last
        ≡ update_job_status (job_id_of s py describe event) "PROVISIONING" none none
          ∷ run_task request
          ∷ success_ending arn
  unfolding attempts
  loop_launched n left attempt last arn launch = rw (create-outcome attempt, launch)

  runs-backoff : (attempt n : ℕ) → count is_run (backoff attempt n) ≡ 0
  runs-backoff attempt n = ground arith

  dlq-backoff : (attempt n : ℕ) → count is_dlq (backoff attempt n) ≡ 0
  dlq-backoff attempt n = ground arith

  Run-refused :
      (n : ℤ) (left attempt : ℕ) (last : Option LaunchError) (e : LaunchError) {runs wait : ℕ}
      {ending : List Action}
      → outcome attempt ≡ refused e
      → Run (loop n left (attempt + 1) (some e)) runs wait ending
      → Run
          (loop n (suc left) attempt last)
          (suc runs)
          (waiting (backoff attempt (pos_part n)) + wait)
          ending
  Run-refused n left attempt last e {ending = ending} refusal run =
      let rest = loop n left (attempt + 1) (some e) in
      let b = backoff attempt (pos_part n) in
      rw (loop_refused n left attempt last e refusal) (record {
        runs_lem =
            omega
              (arith, count-append is_run b rest, runs-backoff attempt (pos_part n), run.runs_lem);
        dlq_lem =
            omega
              (arith, count-append is_dlq b rest, dlq-backoff attempt (pos_part n), run.dlq_lem);
        wait_lem = omega (arith, waiting-append b rest, run.wait_lem);
        front = tried n attempt ++ run.front;
        ends = rw (run.ends, append_assoc);
      })

  waiting-backoff :
      (attempt n : ℕ) → attempt < n → waiting (backoff attempt n) ≡ min (2 ^ attempt) 30
  waiting-backoff attempt n lt = rw (lt→ltb attempt n lt) (omega arith)

  Run-cast :
      {t : List Action} {r r' w w' : ℕ} {ending : List Action}
      → Run t r w ending
      → r ≡ r'
      → w ≡ w'
      → Run t r' w' ending
  Run-cast run same same' = rw (← same, ← same') run

  succeeds :
      (n : ℤ) (left attempt : ℕ) (last : Option LaunchError) (k : ℕ) {arn : String}
      → attempt + left ≡ pos_part n + 1
      → attempt ≤ k
      → k < attempt + left
      → outcome k ≡ launched arn
      → ((j : ℕ) → attempt ≤ j → j < k → IsRefused (outcome j))
      → Run
          (loop n left attempt last)
          (k + 1 - attempt)
          (waits attempt (k - attempt))
          (success_ending arn)
  succeeds n zero attempt last k e lo hi launch before = absurd (omega arith)
  succeeds n (suc left) attempt last k {arn} e lo hi launch before = elim (ℕ_discrete attempt k) [
    | yes here ↦ rw (loop_launched n left attempt last arn (rw here launch)) (record {
      runs_lem = omega arith;
      dlq_lem = refl;
      wait_lem = let none_left : k - attempt ≡ 0 = omega arith in rw none_left (omega arith);
      front =
          update_job_status (job_id_of s py describe event) "PROVISIONING" none none
          ∷ run_task request
          ∷ [];
      ends = refl;
    })
    | no later ↦
        let (err, refusal) = before attempt (omega arith) (omega arith) in
        let rest =
          succeeds n left (attempt + 1) (some err) k (omega arith) (omega arith) (omega arith)
            launch (λ j le lt. before j (omega arith) lt) in
        let more : k - attempt ≡ suc (k - (attempt + 1)) = omega arith in
        Run-cast (Run-refused n left attempt last err refusal rest) (omega arith)
          (rw more (omega (arith, waiting-backoff attempt (pos_part n))))
  ]

  pub loop-exhausted :
      (n : ℤ) (attempt : ℕ) (last : Option LaunchError)
      → loop n zero attempt last ≡ exhausted s py describe event n last
  unfolding attempts
  loop-exhausted n attempt last = refl

  pub fails :
      (n : ℤ) (left attempt : ℕ) (last : Option LaunchError)
      → attempt + left ≡ pos_part n + 1
      → ((j : ℕ) → attempt ≤ j → j < attempt + left → IsRefused (outcome j))
      → (last' : Option LaunchError) × Run
          (loop n left attempt last)
          left
          (waits attempt (left - 1))
          (exhausted s py describe event n last')
  fails n zero attempt last e all = (
    last,
    rw (loop-exhausted n attempt last) (record {
      runs_lem = omega arith;
      dlq_lem = refl;
      wait_lem = let none_left : 0 - 1 ≡ 0 = omega arith in rw none_left;
      front = [];
      ends = refl;
    }),
  )
  fails n (suc zero) attempt last e all =
      let (err, refusal) = all attempt (omega arith) (omega arith) in
      let last_wait : waiting (backoff attempt (pos_part n)) ≡ 0 = ground arith in
      let none_left : 1 - 1 ≡ 0 = omega arith in
      (
        some err,
        Run-cast
            (Run-refused n zero attempt last err {wait = 0} refusal (
              rw (loop-exhausted n (attempt + 1) (some err)) (record {
                runs_lem = omega arith;
                dlq_lem = refl;
                wait_lem = refl;
                front = [];
                ends = refl;
              })))
            refl (rw none_left (omega (arith, last_wait))),
      )
  fails n (suc (suc left)) attempt last e all =
      let (err, refusal) = all attempt (omega arith) (omega arith) in
      let (last', rest) =
        fails n (suc left) (attempt + 1) (some err) (omega arith)
          (λ j le lt. all j (omega arith) (omega arith)) in
      let one_less : suc left - 1 ≡ left = omega arith in
      let two_less : suc (suc left) - 1 ≡ suc left = omega arith in
      (
        last',
        Run-cast (Run-refused n (suc left) attempt last err refusal rest) refl
            (rw (one_less, two_less) (omega (arith, waiting-backoff attempt (pos_part n)))),
      )

  -- An event whose request can be built, and whose retry budget is `n`: if the attempts before `k`
  -- are refused and attempt `k` of the budget launches a task, then `run_task` is called `k` times,
  -- the waits are those of `k - 1` failures, nothing goes to the dead-letter topic, and the last acts
  -- are the callback with the task's ARN and the count of a success.
  pub process_message_launches :
      (n : ℤ) (k : ℕ) (arn : String)
      → int_field py "max_retries" s.default_max_retries event ≡ some n
      → 1 ≤ k
      → k ≤ pos_part n
      → outcome k ≡ launched arn
      → ((j : ℕ) → 1 ≤ j → j < k → IsRefused (outcome j))
      → (t : List Action) × (process_message s py describe event answers ≡ some t)
        × Run t k (waits 1 (k - 1)) (success_ending arn)
  unfolding process_message
  process_message_launches n k arn budget lo hi launch before = (
    loop n (pos_part n) 1 none,
    rw (budget, process_message),
    Run-cast (succeeds n (pos_part n) 1 none k (omega arith) lo (omega arith) launch before)
        (omega arith) refl,
  )
