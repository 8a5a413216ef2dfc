-- ===== src/Storage/Tests.antt =====
-- Runs of the storage service.
use dhp.Prelude.{String, true, false, none, some, [], ◌∷◌, ◌≡◌, refl}
use dhp.Http.{ok, error}
use dhp.Storage.{
  Settings, S3Answer, returned, client_error, location_constraint, CreateBucket, build_boto_client,
  Presign, presign, already_exists, ListParams, ListResponse,
}
use dhp.Storage as S3Client
use dhp.Storage.Router.{
  bucket_ops_total, presigned_urls_total, create_bucket, list_objects, get_presigned_url,
  delete_object,
}

abbrev settings : Settings
settings = record {
  s3_region = "eu-west-1";
  s3_endpoint = none;
  s3_access_key = none;
  s3_secret_key = none;
  s3_force_path_style = false;
  presigned_url_expiry = 3600;
}

abbrev signed : Presign → S3Answer String
signed p = returned p.client_method

abbrev no_bucket : ListParams → S3Answer ListResponse
no_bucket p = client_error "NoSuchBucket"

abbrev owned : CreateBucket → S3Answer {0} Unit
owned p = client_error "BucketAlreadyOwnedByYou"

abbrev denied : String → String → S3Answer {0} Unit
denied bucket key = client_error "AccessDenied"

location_test : location_constraint settings ≡ some "eu-west-1"
unfolding location_constraint
location_test = refl

minio_test :
    (build_boto_client (record settings { s3_endpoint = some "http://minio" })).path_style ≡ true
unfolding build_boto_client
minio_test = refl

owned_test : create_bucket settings "raw" owned ≡ (
  ok (record { name = "raw"; status = already_exists }),
  bucket_ops_total "create" "success" ∷ [],
)
unfolding create_bucket S3Client.create_bucket
owned_test = refl

missing_test :
    list_objects "raw" none none none no_bucket
    ≡ (error 404, bucket_ops_total "list_objects" "not_found" ∷ [])
unfolding list_objects S3Client.list_objects
missing_test = refl

-- An operation that is neither of the two that the request documents is signed as an upload.
mistyped_test : get_presigned_url settings "raw" "a" (some "Download") (some 0) signed ≡ (
  ok (record {
    bucket = "raw";
    object_key = "a";
    operation = "Download";
    url = "put_object";
    expiry = 3600;
  }),
  presigned_urls_total "Download" ∷ [],
)
unfolding get_presigned_url presign
mistyped_test = refl

refused_test :
    delete_object "raw" "a" denied ≡ (error 500, bucket_ops_total "delete_object" "error" ∷ [])
unfolding delete_object S3Client.delete_object
refused_test = refl
