-- ===== src/Job/Access.antt =====
-- The endpoints behind their tokens, and what a request may touch.
use dhp.Prelude.{
  String, Option, none, some, ◌≡◌, ◌≢◌, ◌⊎◌, inl, inr, refl, arith, eq_iff, eq_refl, truthy, true,
  Option-cases,
}
use dhp.Security.{Tokens, require_token}
use dhp.Job.Table.{find}
use dhp.Job.Service.{World}
use dhp.Job.Effects.{jobs-create_job_clash}
use dhp.Job.Submit.{find-create_job}
use dhp.Job.Retry.{find-update_job_status}
use dhp.Job.Cancel.{find-cancel_job}
use dhp.Job.Router.{error, Call, submit, get, cancel, update_status, guard, endpoint, handle}

-- The token that a call wants: the internal one for a status callback, else the API key.
abbrev pub wanted : Tokens → Call → String
wanted t (update_status _ _ _ _) = t.internal_api_token
wanted t (submit _ _ _ _) = t.api_key
wanted t (get _) = t.api_key
wanted t (cancel _ _ _) = t.api_key

require_token_passes :
    (expected : String) → truthy expected ≡ true → require_token (some expected) expected ≡ none
unfolding require_token
require_token_passes e h = ground (arith, eq_refl e)

require_token_stops :
    (header : Option String) (expected : String)
    → header ≢ some expected
    → (require_token header expected ≡ some 401) ⊎ (require_token header expected ≡ some 500)
unfolding require_token
require_token_stops none e h = ground arith
require_token_stops (some s) e h = ground (arith, eq_iff s e)

guard-wanted :
    (t : Tokens) (header : Option String) (c : Call)
    → guard t c header ≡ require_token header (wanted t c)
guard-wanted t header (update_status _ _ _ _) = refl
guard-wanted t header (submit _ _ _ _) = refl
guard-wanted t header (get _) = refl
guard-wanted t header (cancel _ _ _) = refl

-- A request that carries the token of its endpoint, where one is configured, is served.
pub handle_authorized :
    (t : Tokens) (c : Call) (w : World)
    → truthy (wanted t c) ≡ true
    → handle t (some (wanted t c)) c w ≡ endpoint c w
unfolding handle
handle_authorized t c w full =
    rw (guard-wanted t (some (wanted t c)) c, require_token_passes (wanted t c) full, handle)

-- A request that does not carry the token of its endpoint is answered by 401 or 500, and changes
-- nothing, whatever the request is.
pub handle_unauthorized :
    (t : Tokens) (header : Option String) (c : Call) (w : World)
    → header ≢ some (wanted t c)
    → (handle t header c w ≡ (error 401, w)) ⊎ (handle t header c w ≡ (error 500, w))
unfolding handle
handle_unauthorized t header c w other = elim (require_token_stops header (wanted t c) other) [
  | inl e ↦ inl (rw (guard-wanted t header c, e, handle))
  | inr e ↦ inr (rw (guard-wanted t header c, e, handle))
]

-- The id that a call is about.
abbrev pub subject : Call → String
subject (submit i _ _ _) = i
subject (get i) = i
subject (cancel i _ _) = i
subject (update_status i _ _ _) = i

endpoint_isolates :
    (c : Call) (w : World) (k : String)
    → subject c ≢ k
    → find k (endpoint c w).1.jobs ≡ find k w.jobs
endpoint_isolates (submit i now b r) w k ne = elim (Option-cases (find i w.jobs)) [
  | inl fresh ↦ ground (arith, find-create_job i now b r w k fresh, eq_iff i k)
  | inr (j, clash) ↦ ground (arith, jobs-create_job_clash i now b r w {j = j} clash)
]
endpoint_isolates (get i) w k ne = refl
endpoint_isolates (cancel i now b) w k ne = ground (arith, find-cancel_job i b now w k, eq_iff i k)
endpoint_isolates (update_status i now b u) w k ne =
    ground (arith, find-update_job_status i b now u w k, eq_iff i k)

-- A request about one job leaves the row of every other job as it is, also when the other job does
-- not exist.
handle_isolates :
    (t : Tokens) (header : Option String) (c : Call) (w : World) (k : String)
    → subject c ≢ k
    → find k (handle t header c w).1.jobs ≡ find k w.jobs
unfolding handle
handle_isolates t header c w k ne = elim (Option-cases (guard t c header)) [
  | inl passed ↦ rw (passed, handle) (endpoint_isolates c w k ne)
  | inr (code, refused) ↦ rw (refused, handle)
]
