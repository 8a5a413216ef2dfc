-- ===== src/Logs/Tests.antt =====
-- Runs of the log service, and its theorem at concrete polls.
use dhp.Prelude.{
  ℕ, ◌≤◌, String, Bool, Option, none, some, List, [], ◌∷◌, map, ◌≡◌, inl, inr, refl, arith, length,
  ltb, str_eq, if◌then◌else◌, Bool-cases,
}
use dhp.Json.{Json, Items, str, list, object, nil, cons, fields}
use dhp.Http.{ok}
use dhp.Logs.{Settings, Clock, connect_error, answered, logql, query_logs}
use dhp.Logs.Router.{event_generator, get_job_logs, log_queries_total}
use dhp.Logs.Stream.{newest, IsOrder, stream_newest}

abbrev iso_of : Json → Option String
iso_of (str s) = some s
iso_of _ = none

abbrev clock : Clock
clock = record { nanoseconds = λ n. n; iso_of = iso_of }

abbrev settings : Settings
settings = record { loki_url = "http://loki"; loki_query_path = "/query_range" }

-- A stream with lines at these time stamps.
abbrev lines : List String → Json
lines ts = object (
    fields (
      (
        "data",
        object (
            fields (
              (
                "result",
                list (
                    cons
                      (object (
                        fields (
                          ("stream", object (fields (("source", str "driver") ∷ [])))
                          ∷ ("values", list (values ts))
                          ∷ [])))
                      nil),
              )
              ∷ [])),
      )
      ∷ []))
  where
    values : List String → Items
    values [] = nil
    values (t ∷ ts) = cons (list (cons (str t) (cons (str "line") nil))) (values ts)

-- Time stamps of one digit.
abbrev digit : String → ℕ
digit s = if str_eq s "1" then 1 else if str_eq s "2" then 2 else if str_eq s "3" then 3 else 0

abbrev after : String → String → Bool
after s t = ltb (digit t) (digit s)

after-IsOrder : IsOrder after
after-IsOrder s t u h = elim (Bool-cases (ltb (digit t) (digit s))) [
  | inl later ↦ inl later
  | inr other ↦ inr (ground arith)
]

logql_test : logql "j" "driver" ≡ "{job_id=\"j\", source=\"driver\"}"
logql_test = refl

failing_test : get_job_logs clock "j" "all" none connect_error ≡ (
  ok (record { job_id = "j"; source = "all"; log_count = 0; entries = [] }),
  log_queries_total "range" "success" ∷ [],
)
unfolding get_job_logs query_logs
failing_test = refl

stream_newest_example :
    (event_generator after clock "j"
        (answered (lines ("1" ∷ [])) ∷ answered (lines ("3" ∷ "2" ∷ "1" ∷ [])) ∷ [])
        none
      ≡ newest after
          (map
            (query_logs clock "j")
            (answered (lines ("1" ∷ [])) ∷ answered (lines ("3" ∷ "2" ∷ "1" ∷ [])) ∷ []))
          none)
    × (length (
          event_generator after clock "j"
            (answered (lines ("1" ∷ [])) ∷ answered (lines ("3" ∷ "2" ∷ "1" ∷ [])) ∷ [])
            none)
        ≤ 2)
unfolding query_logs
stream_newest_example =
    stream_newest after clock "j"
      (answered (lines ("1" ∷ [])) ∷ answered (lines ("3" ∷ "2" ∷ "1" ∷ [])) ∷ []) after-IsOrder
      (tt, ((refl, (refl, tt)), tt))
