-- ===== src/Limits.antt =====
-- services/job-service/app/rate_limit.py, of which the other services hold copies: the key under which a
-- request is counted, the requests that are not counted and the refusal. What slowapi's store says of a key
-- and the remote address are arguments.
use dhp.Prelude.{
  ℕ, String, Bool, false, ◌||◌, Option, none, some, List, [], ◌∷◌, ◌≡◌, refl, if◌then◌else◌, str_eq,
  truthy?, get_or, format, take_chars,
}

-- The parts of a request that the limiter reads.
pub record Request : Type 0 where
  pub api_key : Option String
  pub internal_token : Option String
  pub remote_address : String
  pub path : String

abbrev exempt_prefixes : List String
exempt_prefixes = "/health" ∷ "/metrics" ∷ "/docs" ∷ "/redoc" ∷ "/openapi.json" ∷ []

-- `_client_key`
unfoldable pub client_key : Request → String
client_key r =
    if truthy? r.api_key
    then format ("key:" ∷ take_chars 32 (get_or r.api_key "") ∷ [])
    else format ("ip:" ∷ r.remote_address ∷ [])

-- `is_internal_request`, with `str.startswith` as an argument.
module _ (starts_with : String → String → Bool) where
  abbrev under : String → List String → Bool
  under path [] = false
  under path (p ∷ ps) =
      let rest = under path ps in str_eq path p || starts_with path (format (p ∷ "/" ∷ [])) || rest

  unfoldable pub is_internal_request : Request → Bool
  is_internal_request r =
      truthy? r.internal_token || str_eq r.path "/" || under r.path exempt_prefixes

-- The response of `rate_limit_exceeded_handler`.
pub record Refusal : Type 0 where
  pub status_code : ℕ
  pub detail : String
  pub retry_after : String

unfoldable pub rate_limit_exceeded_handler : Option String → Refusal
rate_limit_exceeded_handler detail = record {
  status_code = 429;
  detail = get_or detail "rate limit exceeded";
  retry_after = "60";
}

-- What the store of the limiter says of a key: it fails, or the count is within the limit or above it.
pub data Count : Type 0 where
  fails within : Count
  above : Option String → Count

-- The limiter with its options `default_limits_exempt_when` and `swallow_errors`: a refusal, if there is one.
unfoldable pub limiter : (String → String → Bool) → (String → Count) → Request → Option Refusal
limiter starts_with store r = elim (store (client_key r)) [
  | fails ↦ none
  | within ↦ none
  | above detail ↦
      if is_internal_request starts_with r then none else some (rate_limit_exceeded_handler detail)
]

-- Any token at all exempts a request, whatever the store says of its key.
token_test :
    limiter
      (λ path prefix. false)
      (λ key. above none)
      (record {
        api_key = none;
        internal_token = some "anything";
        remote_address = "::1";
        path = "/api/v1/jobs";
      })
    ≡ none
unfolding limiter is_internal_request
token_test = refl

-- Two keys that agree in their first 32 characters are counted together.
key_test :
    client_key (record {
      api_key = some "0123456789abcdef0123456789abcdef-a";
      internal_token = none;
      remote_address = "::1";
      path = "/";
    })
    ≡ client_key (record {
      api_key = some "0123456789abcdef0123456789abcdef-b";
      internal_token = none;
      remote_address = "::2";
      path = "/";
    })
unfolding client_key take_chars
key_test = refl
