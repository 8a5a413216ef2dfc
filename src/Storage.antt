-- ===== src/Storage.antt =====
-- services/storage-service/app/s3_client.py: `S3Client`. What S3 answers to a request is an argument.
pub mod Router
mod Tests
use dhp.Prelude.{
  ℕ, String, Bool, true, false, ◌&&◌, ◌||◌, not, Option, none, some, List, [], ◌∷◌, map,
  if◌then◌else◌, str_eq, truthy, truthy?, get_or, length, format,
}

pub record Settings : Type 0 where
  pub s3_region : String
  pub s3_endpoint : Option String
  pub s3_access_key : Option String
  pub s3_secret_key : Option String
  pub s3_force_path_style : Bool
  pub presigned_url_expiry : ℕ

-- The arguments of `boto3.client`, without the retries, which are constant.
pub record BotoClient : Type 0 where
  pub region_name : String
  pub endpoint_url : Option String
  pub credentials : Option (String × String)
  pub path_style : Bool

-- `_build_boto_client`
unfoldable pub build_boto_client : Settings → BotoClient
build_boto_client s = record {
  region_name = s.s3_region;
  endpoint_url = if truthy? s.s3_endpoint then s.s3_endpoint else none;
  credentials =
      if truthy? s.s3_access_key && truthy? s.s3_secret_key
      then some (get_or s.s3_access_key "", get_or s.s3_secret_key "")
      else none;
  path_style = s.s3_force_path_style || truthy? s.s3_endpoint;
}

-- What a call of the client does: it returns, or raises a `ClientError` with a code or another exception.
pub data S3Answer {ℓ} (A : Type ℓ) : Type ℓ where
  returned : A → S3Answer A
  client_error : String → S3Answer A
  exception : S3Answer A

-- What a method of the wrapper does.
pub data Outcome {ℓ} (A : Type ℓ) : Type ℓ where
  returns : A → Outcome A
  raises : Outcome A

-- The region that a new bucket is constrained to.
unfoldable pub location_constraint : Settings → Option String
location_constraint s =
    if truthy s.s3_region && not (str_eq s.s3_region "us-east-1") && not (truthy? s.s3_endpoint)
    then some s.s3_region
    else none

pub data BucketStatus : Type 0 where
  created already_exists : BucketStatus

pub record CreateBucket : Type 0 where
  pub bucket : String
  pub location : Option String

unfoldable pub create_bucket :
    Settings → String → (CreateBucket → S3Answer {0} Unit) → Outcome BucketStatus
create_bucket s bucket s3 =
    elim (s3 (record { bucket = bucket; location = location_constraint s })) [
      | returned done ↦ returns created
      | client_error code ↦
          (if str_eq code "BucketAlreadyExists" || str_eq code "BucketAlreadyOwnedByYou"
            then returns already_exists
            else raises)
      | exception ↦ raises
    ]

pub record S3Object : Type 0 where
  pub key : String
  pub size : ℕ
  pub last_modified : String
  pub etag : Option String

-- The parts of `list_objects_v2`'s response that are read; those that it may leave out are optional.
pub record ListResponse : Type 0 where
  pub contents : Option (List S3Object)
  pub is_truncated : Option Bool
  pub next_token : Option String

pub record ListParams : Type 0 where
  pub bucket : String
  pub prefix : String
  pub max_keys : ℕ
  pub token : Option String

pub record ObjectItem : Type 0 where
  pub key : String
  pub size : ℕ
  pub last_modified : String
  pub etag : String

pub record ObjectList : Type 0 where
  pub bucket : String
  pub prefix : String
  pub objects : List ObjectItem
  pub total : ℕ
  pub is_truncated : Bool
  pub next_continuation_token : Option String

abbrev pub list_params : String → String → ℕ → Option String → ListParams
list_params bucket prefix max_keys token = record {
  bucket = bucket;
  prefix = prefix;
  max_keys = max_keys;
  token = if truthy? token then token else none;
}

abbrev pub object_item : S3Object → ObjectItem
object_item o = record {
  key = o.key;
  size = o.size;
  last_modified = o.last_modified;
  etag = get_or o.etag "";
}

-- `list_objects`: no list where the bucket does not exist.
unfoldable pub list_objects :
    String
    → String
    → ℕ
    → Option String
    → (ListParams → S3Answer ListResponse)
    → Outcome (Option ObjectList)
list_objects bucket prefix max_keys token s3 =
    elim (s3 (list_params bucket prefix max_keys token)) [
      | returned r ↦
          let objects = map object_item (get_or r.contents []) in
          returns (
            some (record {
              bucket = bucket;
              prefix = prefix;
              objects = objects;
              total = length objects;
              is_truncated = get_or r.is_truncated false;
              next_continuation_token = r.next_token;
            }))
      | client_error code ↦ (if str_eq code "NoSuchBucket" then returns none else raises)
      | exception ↦ raises
    ]

pub record Presign : Type 0 where
  pub client_method : String
  pub bucket : String
  pub key : String
  pub expires_in : ℕ

-- `generate_presigned_url`: the request that is signed.
unfoldable pub presign : Settings → String → String → String → Option ℕ → Presign
presign s bucket key operation expiry = record {
  client_method = if str_eq operation "download" then "get_object" else "put_object";
  bucket = bucket;
  key = key;
  expires_in = get_or expiry s.presigned_url_expiry;
}

-- `delete_object`: whether it went through; an exception other than a `ClientError` is raised.
unfoldable pub delete_object :
    String → String → (String → String → S3Answer {0} Unit) → Outcome Bool
delete_object bucket key s3 = elim (s3 bucket key) [
  | returned done ↦ returns true
  | client_error code ↦ returns false
  | exception ↦ raises
]

pub record Bucket : Type 0 where
  pub name : String
  pub creation_date : String

-- `list_buckets`, where the response may have no list.
unfoldable pub list_buckets : S3Answer (Option (List Bucket)) → Outcome (List Bucket)
list_buckets (returned buckets) = returns (get_or buckets [])
list_buckets (client_error code) = raises
list_buckets exception = raises

-- `ensure_prefix`: the key of the empty object, by whether the prefix ends in a slash; a `ClientError` is
-- passed over.
abbrev pub prefix_key : Bool → String → String
prefix_key ends_in_slash prefix = if ends_in_slash then prefix else format (prefix ∷ "/" ∷ [])

unfoldable pub ensure_prefix :
    (String → Bool) → String → (String → S3Answer {0} Unit) → Outcome {0} Unit
ensure_prefix ends_in_slash prefix s3 = elim (s3 (prefix_key (ends_in_slash prefix) prefix)) [
  | returned done ↦ returns tt
  | client_error code ↦ returns tt
  | exception ↦ raises
]
