-- ===== src/Storage/Router.antt =====
-- services/storage-service/app/routers/storage.py: the endpoints, their errors and the counters they raise. The
-- pattern of a bucket's name is not modelled.
use dhp.Prelude.{
  ℕ, String, ◌&&◌, Option, none, some, List, [], ◌∷◌, if◌then◌else◌, leb, ◌==◌, get_or, length,
}
use dhp.Http.{Reply, ok, error}
use dhp.Storage.{
  Settings, S3Answer, returned, client_error, exception, Outcome, returns, raises, BucketStatus,
  CreateBucket, ListParams, ListResponse, ObjectList, Presign, presign, Bucket,
}
use dhp.Storage as S3Client

pub data Metric : Type 0 where
  bucket_ops_total : (op outcome : String) → Metric
  presigned_urls_total : String → Metric

pub record BucketResponse : Type 0 where
  pub name : String
  pub status : BucketStatus

unfoldable pub create_bucket :
    Settings → String → (CreateBucket → S3Answer {0} Unit) → Reply BucketResponse × List Metric
create_bucket s name s3 = elim (S3Client.create_bucket s name s3) [
  | returns status ↦
      (ok (record { name = name; status = status }), bucket_ops_total "create" "success" ∷ [])
  | raises ↦ (error 500, bucket_ops_total "create" "error" ∷ [])
]

-- An exception that no handler takes is a 500 without a counter.
unfoldable pub list_objects :
    String
    → Option String
    → Option ℕ
    → Option String
    → (ListParams → S3Answer ListResponse)
    → Reply ObjectList × List Metric
list_objects bucket prefix max_keys token s3 =
    let keys = get_or max_keys 1000 in
    if leb 1 keys && leb keys 10000
    then elim (S3Client.list_objects bucket (get_or prefix "") keys token s3) [
      | returns found ↦ elim found [
        | none ↦ (error 404, bucket_ops_total "list_objects" "not_found" ∷ [])
        | some list ↦ (ok list, bucket_ops_total "list_objects" "success" ∷ [])
      ]
      | raises ↦ (error 500, [])
    ]
    else (error 422, [])

pub record PresignedUrlResponse : Type 0 where
  pub bucket : String
  pub object_key : String
  pub operation : String
  pub url : String
  pub expiry : ℕ

-- `request.expiry or settings.presigned_url_expiry`
abbrev pub expiry_of : Settings → Option ℕ → ℕ
expiry_of s none = s.presigned_url_expiry
expiry_of s (some n) = if n == 0 then s.presigned_url_expiry else n

unfoldable pub get_presigned_url :
    Settings
    → String
    → String
    → Option String
    → Option ℕ
    → (Presign → S3Answer String)
    → Reply PresignedUrlResponse × List Metric
get_presigned_url s bucket key operation expiry s3 =
    let op = get_or operation "download" in
    let seconds = expiry_of s expiry in
    elim (s3 (presign s bucket key op (some seconds))) [
      | returned url ↦ (
        ok (record {
          bucket = bucket;
          object_key = key;
          operation = op;
          url = url;
          expiry = seconds;
        }),
        presigned_urls_total op ∷ [],
      )
      | client_error code ↦ (error 500, [])
      | exception ↦ (error 500, [])
    ]

unfoldable pub delete_object :
    String → String → (String → String → S3Answer {0} Unit) → Reply {0} Unit × List Metric
delete_object bucket key s3 = elim (S3Client.delete_object bucket key s3) [
  | returns gone ↦
      (if gone
        then (ok tt, bucket_ops_total "delete_object" "success" ∷ [])
        else (error 500, bucket_ops_total "delete_object" "error" ∷ []))
  | raises ↦ (error 500, [])
]

pub record BucketListResponse : Type 0 where
  pub total : ℕ
  pub buckets : List Bucket

unfoldable pub list_buckets :
    S3Answer (Option (List Bucket)) → Reply BucketListResponse × List Metric
list_buckets answer = elim (S3Client.list_buckets answer) [
  | returns found ↦ (
    ok (record { total = length found; buckets = found }),
    bucket_ops_total "list" "success" ∷ [],
  )
  | raises ↦ (error 500, [])
]
