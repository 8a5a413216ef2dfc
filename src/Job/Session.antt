-- ===== src/Job/Session.antt =====
-- services/job-service/app/db/session.py: `get_db`, the transaction round an endpoint.
use dhp.Prelude.{ℕ, ◌+◌, Bool, true, false, not, ◌&&◌, List, [], ◌∷◌, ◌≡◌, refl, if◌then◌else◌}
use dhp.Job.{Job}
use dhp.Job.Service.{World}
use dhp.Job.Router.{Reply, body, error, Call, submit, endpoint}

abbrev pub is_error : Reply → Bool
is_error (body r) = false
is_error (error code) = true

-- The commit after the endpoint, or the rollback where it raises or the commit fails: the rows are those
-- from before, and what was sent to Kafka and counted by the metrics stays.
unfoldable pub get_db : Bool → (World → Reply × World) → World → Reply × World
get_db commits handler w =
    let (r, w') = handler w in
    let undone : World = record w' { jobs = w.jobs } in
    if is_error r then (r, undone) else (if commits then (r, w') else (error 500, undone))

pub without_commit :
    (handler : World → Reply × World) (w : World)
    → is_error (handler w).0 ≡ false
    → get_db false handler w ≡ (error 500, record (handler w).1 { jobs = w.jobs })
unfolding get_db
without_commit handler w fine = rw (fine, get_db) refl

abbrev pub is_submission : Call → Bool
is_submission (submit i now b r) = true
is_submission _ = false

-- Requests one after the other, each with whether its commit succeeds: how many submissions were answered
-- without an error, and the state after the last.
unfoldable pub serve_db : List (Bool × Call) → World → ℕ × World
serve_db [] w = (0, w)
serve_db ((commits, c) ∷ rest) w =
    let (r, w') = get_db commits (endpoint c) w in
    let (n, w'') = serve_db rest w' in
    ((if is_submission c && not (is_error r) then n + 1 else n), w'')
