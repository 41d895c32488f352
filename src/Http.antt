-- ===== src/Http.antt =====
-- What the handlers use of net/http and net/url: requests as the server hands them over, and the
-- response that a handler has written.
pub mod Numbers
pub mod Escape
pub mod Base64
use home_store.Prelude.{
  ℕ, ◌+◌, leb, ◌&&◌, Bool, true, false, Option, none, some, List, [], ◌∷◌, ◌++◌, if◌then◌else◌, any,
}
use home_store.Prelude.Bytes.{Bytes, codes, bytes_eq}
use home_store.Os.Calls.{Reader}
use home_store.S3.Types.{Document}

-- r.Method; a handler compares it with these five only.
pub data Method : Type 0 where
  get put post delete head unknown : Method

-- `path` is r.URL.Path, which is unescaped; `query` holds r.URL.Query() in the order of the URL.
-- A header's name stands with its values, one entry for a name.
pub record HttpRequest : Type 0 where
  pub method : Method
  pub path : Bytes
  pub query : List (Bytes × Bytes)
  pub header : List (Bytes × List Bytes)
  pub body : Reader

-- strings.ToLower of ASCII text.
unfoldable pub to_lower : Bytes → Bytes
to_lower [] = []
to_lower (c ∷ s) = (if leb b'A' c && leb c b'Z' then c + 32 else c) ∷ to_lower s

-- url.Values.Has
unfoldable pub query_has : Bytes → List (Bytes × Bytes) → Bool
unfolding bytes_eq
query_has name [] = false
query_has name ((n, v) ∷ q) = if bytes_eq n name then true else query_has name q

-- url.Values.Get: the first value, or the empty string.
unfoldable pub query_get : Bytes → List (Bytes × Bytes) → Bytes
unfolding bytes_eq
query_get name [] = []
query_get name ((n, v) ∷ q) = if bytes_eq n name then v else query_get name q

abbrev pub first_value : List Bytes → Bytes
first_value [] = []
first_value (v ∷ vs) = v

-- http.Header.Get: names are compared without regard to case.
unfoldable pub header_get : Bytes → List (Bytes × List Bytes) → Bytes
unfolding bytes_eq to_lower
header_get name [] = []
header_get name ((n, vs) ∷ h) =
    if bytes_eq (to_lower n) (to_lower name) then first_value vs else header_get name h

-- What was written to the body: nothing, the bytes of a reader, plain text, or a document after
-- the XML declaration.
pub data Body : Type 0 where
  empty : Body
  raw text : Bytes → Body
  xml : Document → Body

-- The status, the header as a list of the names that were set, and the body.
pub record HttpResponse : Type 0 where
  pub status : ℕ
  pub header : List (Bytes × Bytes)
  pub body : Body

-- http.Error
abbrev pub http_error : Bytes → ℕ → HttpResponse
http_error message status = record {
  status = status;
  header =
      (codes "Content-Type", codes "text/plain; charset=utf-8")
      ∷ (codes "X-Content-Type-Options", codes "nosniff")
      ∷ [];
  body = text (message ++ 10 ∷ []);
}
