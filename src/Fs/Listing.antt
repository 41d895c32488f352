-- ===== src/Fs/Listing.antt =====
-- internal/storage/fs/objects.go: ListObjects.
pub mod Flat
pub mod Pages
pub mod Bounds
use home_store.Prelude.{
  ℕ, ◌+◌, Bool, true, false, not, ◌&&◌, Option, none, some, List, [], ◌∷◌, ◌++◌, ◌==◌,
  if◌then◌else◌, any, take, length,
}
use home_store.Prelude.Bytes.{Bytes, bytes_eq, bytes_lt, trim_prefix, index}
use home_store.Prelude.Sort.{sort_by}
use home_store.Storage.{ObjectMeta, ListOptions, ObjectInfo, ListResult}
use home_store.Os.Exec.{Fs, pure, ◌>>=◌, ◌>>◌}
use home_store.Fs.Buckets.{require_bucket}
use home_store.Fs.Metadata.{list_metadata}

-- The variables of the loop.
pub record Page : Type 0 where
  pub objects : List ObjectInfo
  pub common_prefixes : List Bytes
  pub is_truncated : Bool
  pub seen : List Bytes
  pub last_key : Bytes
  pub count : ℕ

abbrev pub no_page : Page
no_page = record {
  objects = [];
  common_prefixes = [];
  is_truncated = false;
  seen = [];
  last_key = [];
  count = 0;
}

-- The next round, or `break`.
pub data Verdict : Type 0 where
  go stop : Page → Verdict

abbrev pub info_of : ObjectMeta → ObjectInfo
info_of m = record {
  key = m.key;
  size = m.content_length;
  last_modified = m.last_modified;
  etag = m.etag;
}

abbrev pub cut : Bytes → Bytes → Bytes → Option ℕ → Option Bytes
cut prefix delimiter remainder none = none
cut prefix delimiter remainder (some i) = some (prefix ++ take (i + length delimiter) remainder)

-- The common prefix under which a key is collapsed, if it is.
unfoldable pub common_prefix : ListOptions → Bytes → Option Bytes
unfolding bytes_eq trim_prefix index
common_prefix o key =
    if bytes_eq o.delimiter []
    then none
    else (let remainder = trim_prefix key o.prefix in
        cut o.prefix o.delimiter remainder (index remainder o.delimiter))

-- The first test of the loop: `false` is its `continue`.
unfoldable pub after_marker : ListOptions → Bytes → Bool
unfolding bytes_eq bytes_lt
after_marker o key = not (not (bytes_eq o.marker []) && not (bytes_lt o.marker key))

abbrev pub add_object : ObjectMeta → Page → Page
add_object m s = record s {
  objects = s.objects ++ info_of m ∷ [];
  last_key = m.key;
  count = s.count + 1;
}

abbrev pub add_prefix : ObjectMeta → Bytes → Page → Page
add_prefix m p s = record s {
  common_prefixes = s.common_prefixes ++ p ∷ [];
  seen = p ∷ s.seen;
  last_key = m.key;
  count = s.count + 1;
}

abbrev pub full : Page → Page
full s = record s { is_truncated = true }

abbrev place : ℕ → Page → ObjectMeta → Option Bytes → Verdict
place max s m none = if s.count == max then stop (full s) else go (add_object m s)
place max s m (some p) =
    if any (λ q. bytes_eq q p) s.seen
    then go s
    else if s.count == max
    then stop (full s)
    else go (add_prefix m p s)

-- One round of the loop.
unfoldable pub page_step : ListOptions → ℕ → Page → ObjectMeta → Verdict
page_step o max s m = if after_marker o m.key then place max s m (common_prefix o m.key) else go s

unfoldable pub page_loop : ListOptions → ℕ → Page → List ObjectMeta → Page
page_loop o max s [] = s
page_loop o max s (m ∷ ms) = elim (page_step o max s m) [
  | go s' ↦ page_loop o max s' ms
  | stop s' ↦ s'
]

abbrev pub limit_of : ListOptions → ℕ
limit_of o = if o.max_keys == 0 then 1000 else o.max_keys

abbrev pub to_result : Page → ListResult
to_result s = record {
  objects = s.objects;
  common_prefixes = s.common_prefixes;
  is_truncated = s.is_truncated;
  next_marker = if s.is_truncated then s.last_key else [];
}

abbrev pub by_key : ObjectMeta → ObjectMeta → Bool
by_key a b = bytes_lt a.key b.key

-- From the sort to the end, on the metadata that was read.
unfoldable pub list_page : ListOptions → List ObjectMeta → ListResult
list_page o metadata = to_result (page_loop o (limit_of o) no_page (sort_by by_key metadata))

unfoldable pub list_objects : Bytes → ListOptions → Fs ListResult
list_objects bucket o = do
  require_bucket bucket
  metadata ← list_metadata bucket o.prefix
  pure (list_page o metadata)
