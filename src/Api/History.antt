-- ===== src/Api/History.antt =====
-- internal/api over internal/storage/fs: the server as a sequence of requests that it answers.
use home_store.Prelude.{◌≡◌, List, [], ◌∷◌, All, length}
use home_store.Prelude.Bytes.{Bytes}
use home_store.Os.Exec.{World, Result, Fault}
use home_store.Os.Disk.{Disk}
use home_store.Os.Calls.{Env}
use home_store.Http.{HttpRequest, HttpResponse}
use home_store.Fs.Implements.{fs_backend}
use home_store.Fs.Touches.Kept.{IsKept, fs_backend-KeepsWrites}
use home_store.Api.Responses.{Library}
use home_store.Api.Handler.{route_request}
use home_store.Api.Answers.{fs_backend-KeepsReads}
use home_store.Api.Serves.{IsAnswer}
use home_store.Api.Serves.Handler.{route_request-Serves}

-- A request that comes in: what the libraries give for it, and how its calls end.
pub record Arrival : Type 0 where
  pub lib : Library
  pub env : Env
  pub request : HttpRequest
  pub faults : List Fault

abbrev handled : Arrival → Disk → Result HttpResponse × World
handled a d =
    route_request a.lib (fs_backend a.env) a.request (record { disk = d; faults = a.faults })

-- The answers in their order, and the tree at the end.
unfoldable pub serve : List Arrival → Disk → List (Result HttpResponse) × Disk
unfolding route_request
serve [] d = ([], d)
serve (a ∷ qs) d = let (r, w) = handled a d in let (rs, d') = serve qs w.disk in (r ∷ rs, d')

-- A SHA-256 sum has 32 bytes.
abbrev pub IsSized : Arrival → Type 0
IsSized a = (k : Bytes) → length (a.env.sha256 k) ≡ 32

-- From a tree with this property, after any HTTP requests, whatever their paths and bucket names
-- are and whichever calls of the operating system failed and wherever, each entry of the data
-- directory is a directory or a file as its place wants, and bucket metadata stands only under
-- valid bucket names; and each request got an answer. A SHA-256 sum has 32 bytes.
pub serve-IsKept :
    (qs : List Arrival)
    → All IsSized qs
    → (d : Disk) → IsKept d
    → IsKept (serve qs d).1 × All IsAnswer (serve qs d).0
unfolding serve
serve-IsKept [] s d h = (h, tt)
serve-IsKept (a ∷ qs) s d h =
    let (k, x) =
      (route_request-Serves a.lib (fs_backend a.env) (fs_backend-KeepsReads a.env)
          (fs_backend-KeepsWrites a.env s.0) a.request).at
        (record { disk = d; faults = a.faults }) h in
    let (k', xs) = serve-IsKept qs s.1 _ k in (k', (x, xs))
