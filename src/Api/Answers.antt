-- ===== src/Api/Answers.antt =====
-- internal/api/handler.go: what requests leave as it was.
use home_store.Prelude.{◌≡◌, refl, true}
use home_store.Os.Disk.{Disk}
use home_store.Os.Exec.{World}
use home_store.Os.Calls.{Env}
use home_store.Http.{HttpRequest}
use home_store.Fs.Implements.{fs_backend}
use home_store.Fs.Touches.Buckets.{
  bucket_exists-Keeps, get_bucket_location-Keeps, list_buckets-Keeps,
}
use home_store.Fs.Touches.Objects.{get_object-Keeps, head_object-Keeps, list_objects-Keeps}
use home_store.Fs.Touches.Multipart.{list_parts-Keeps, list_multipart_uploads-Keeps}
use home_store.Api.Responses.{Library}
use home_store.Api.Handler.{route_request}
use home_store.Backend.Keeps.{KeepsReads}
use home_store.Api.Serves.Handler.{is_safe, safe_request-Serves}

pub fs_backend-KeepsReads : {P : Disk → Type 0} (env : Env) → KeepsReads P (fs_backend env)
fs_backend-KeepsReads env = record {
  list_buckets = list_buckets-Keeps;
  bucket_exists = bucket_exists-Keeps;
  get_bucket_location = get_bucket_location-Keeps;
  get_object = get_object-Keeps env;
  head_object = head_object-Keeps env;
  list_objects = list_objects-Keeps;
  list_multipart_uploads = list_multipart_uploads-Keeps;
  list_parts = list_parts-Keeps env;
}

-- A request with the method GET or HEAD, whatever its path, query and headers are, leaves the tree
-- as it was, also when calls fail.
pub safe_request-same :
    (lib : Library) (env : Env) (r : HttpRequest)
    → is_safe r.method ≡ true
    → (w : World) → (route_request lib (fs_backend env) r w).1.disk ≡ w.disk
safe_request-same lib env r h w =
    ((safe_request-Serves lib (fs_backend env) (fs_backend-KeepsReads {P = λ d. d ≡ w.disk} env) r
        h).at
      w refl).0
