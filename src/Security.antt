-- ===== src/Security.antt =====
-- services/job-service/app/security.py: the shared-token check behind every endpoint. The copies in
-- the other services hold `require_api_key` alone.
use dhp.Prelude.{ℕ, String, Option, none, some, str_eq, if◌then◌else◌, truthy}

-- The settings `api_key` and `internal_api_token`.
pub record Tokens : Type 0 where
  pub api_key : String
  pub internal_api_token : String

-- `_require_token`: `none` lets the request through, `some` is the status of the HTTP error.
-- `compare_digest` is equality of the two texts.
unfoldable pub require_token : Option String → String → Option ℕ
require_token none expected = if truthy expected then some 401 else some 500
require_token (some provided) expected =
    if truthy expected
    then (if truthy provided
        then (if str_eq provided expected then none else some 401)
        else some 401)
    else some 500

abbrev pub require_api_key : Tokens → Option String → Option ℕ
require_api_key t header = require_token header t.api_key

abbrev pub require_internal_token : Tokens → Option String → Option ℕ
require_internal_token t header = require_token header t.internal_api_token
