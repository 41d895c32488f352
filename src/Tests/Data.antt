-- ===== src/Tests/Data.antt =====
-- A small data directory, and library values that suit it.
use home_store.Prelude.{
  ℕ, zero, suc, ◌≤◌, ◌≡◌, ◌≢◌, refl, sym, ap, ◌∙◌, true, none, List, [], ◌∷◌, ◌++◌, arith, All,
  length, length-append, take,
}
use home_store.Prelude.Bytes.{Bytes, codes, bytes_lt}
use home_store.Prelude.Sort.{sort_by}
use home_store.Storage.{BucketInfo, ObjectMeta, ListOptions}
use home_store.Fs.Listing.{after_marker}
use home_store.Fs.Listing.Flat.{listed, kept}
use home_store.Fs.Listing.Pages.{HasDistinctKeys, HasKey}
use home_store.Storage.Names.{is_valid_bucket_name}
use home_store.Os.Disk.{Disk, dir, file, raw, json, bucket_doc, lookup, insert, erase}
use home_store.Os.Calls.{Env, Reader}
use home_store.Os.Layout.{HasLayout, dir_path, HasLayout-insert, HasLayout-erase}
use home_store.Fs.Paths.{bucket_metadata_path, object_path, object_file_name, hex_encode}
use home_store.Fs.Parts.{valid_part_number}
use home_store.Fs.Objects.{empty_meta}
use home_store.Fs.Touches.Objects.{temp_path}
use home_store.Fs.Touches.Frame.{IsOther}
use home_store.Fs.Runs.Places.{
  bucket-ne-temp, bucket-ne-object, object-ne-metadata, lookup-insert_self, lookup-insert_ne,
  lookup-erase_self, lookup-erase_ne, temp_path-valid,
}
use home_store.Fs.Runs.Put.{HasBucket, put_disk-temp}
use home_store.Fs.Runs.RoundTrip.{HasObject, read_back, after, after-HasObject}
use home_store.Fs.Runs.Orphan.{IsOrphan}

abbrev dots : Bytes
dots = codes "................................"

abbrev pub env : Env
env = record {
  sha256 = λ k. take 32 (k ++ dots);
  md5 = λ b. b;
  marshal = λ d. [];
  json_string = λ s. s;
  now = 7;
  random = codes "0123456789abcdef";
  suffix = codes "1";
}

length-take_le {ℓ} : {A : Type ℓ} (n : ℕ) (xs : List A) → n ≤ length xs → length (take n xs) ≡ n
length-take_le zero [] h = refl
length-take_le zero (x ∷ xs) h = refl
length-take_le (suc n) [] h = absurd (omega arith)
length-take_le (suc n) (x ∷ xs) h = ground (arith, length-take_le n xs)

-- The 32 bytes of a sum.
pub sized : (k : Bytes) → length (env.sha256 k) ≡ 32
sized k = length-take_le 32 (k ++ dots) (ground (arith, length-append k dots))

abbrev pub bkt : Bytes
bkt = codes "bucket"

pub bkt_valid : is_valid_bucket_name bkt ≡ true
unfolding is_valid_bucket_name
bkt_valid = refl

abbrev pub key : Bytes
key = codes "a/b"

abbrev pub new_key : Bytes
new_key = codes "c"

abbrev pub body : Reader
body = record { content = codes "hello"; intact = true }

abbrev pub info : BucketInfo
info = record { name = bkt; created_at = 1; region = codes "us-east-1" }

-- A tree with the one bucket.
abbrev pub bucket_disk : Disk
bucket_disk =
    insert (bucket_metadata_path bkt) (file (json (bucket_doc info))) (insert (bkt ∷ []) dir [])

pub empty-HasLayout : HasLayout []
unfolding lookup
empty-HasLayout p n e = cc

pub bucket_disk-HasLayout : HasLayout bucket_disk
unfolding dir_path bucket_metadata_path
bucket_disk-HasLayout = HasLayout-insert _ _ _ refl (HasLayout-insert _ _ _ refl empty-HasLayout)

pub bkt_there : HasBucket bkt bucket_disk
bkt_there = record {
  layout = bucket_disk-HasLayout;
  content = json (bucket_doc info);
  bucket =
      lookup-insert_self (bucket_metadata_path bkt) (file (json (bucket_doc info)))
        (insert (bkt ∷ []) dir []);
}

-- Three objects of a bucket, and a request for pages of one item.
abbrev named : Bytes → ObjectMeta
named k = record empty_meta { key = k }

abbrev pub metadata : List ObjectMeta
metadata = named (codes "b") ∷ named (codes "a/2") ∷ named (codes "a/1") ∷ []

abbrev pub one_a_page : ListOptions
one_a_page = record { prefix = []; delimiter = []; marker = []; max_keys = 1 }

abbrev pub grouped : ListOptions
grouped = record { prefix = []; delimiter = codes "/"; marker = []; max_keys = 2 }

abbrev third_byte : Bytes → ℕ
third_byte (a ∷ b ∷ c ∷ s) = c
third_byte s = 0

second_apart : codes "a/2" ≢ codes "a/1"
second_apart e = let h : ◌≡◌ {A = ℕ} 50 49 = ap third_byte e in absurd (omega (arith, h))

abbrev pub one_group : ListOptions
one_group = record { prefix = []; delimiter = codes "/"; marker = []; max_keys = 1 }

pub metadata-listed : length (listed one_a_page metadata) ≡ 3
unfolding kept sort_by bytes_lt after_marker
metadata-listed = refl

pub metadata-HasDistinctKeys : HasDistinctKeys metadata
metadata-HasDistinctKeys = ((λ e. cc e, (λ e. cc e, tt)), ((λ e. second_apart e, tt), (tt, tt)))

pub metadata-HasKey : All HasKey metadata
metadata-HasKey = (λ e. cc e, (λ e. cc e, (λ e. cc e, tt)))

pub tmp_free : (k : Bytes) → lookup (temp_path env bkt k) bucket_disk ≡ none
unfolding lookup
tmp_free k = rw (temp_path-valid env sized bkt k bkt_valid) (
    lookup-insert_ne (bucket_metadata_path bkt)
      (bkt ∷ codes ".objects" ∷ (codes ".tmp-" ++ env.suffix) ∷ []) _ _
      (λ e.
        bucket-ne-temp env sized bkt k bkt_valid bkt bkt_valid
          (e ∙ sym (temp_path-valid env sized bkt k bkt_valid)))
    ∙ lookup-insert_ne (bkt ∷ []) (bkt ∷ codes ".objects" ∷ (codes ".tmp-" ++ env.suffix) ∷ []) dir
        [] (λ e. cc e))

-- The tree after the object was stored.
abbrev pub object_disk : Disk
object_disk =
    after env sized bkt key bkt_valid bucket_disk bkt_there (tmp_free key) body empty_meta refl

abbrev pub object_meta : ObjectMeta
object_meta =
    read_back env sized bkt key bkt_valid bucket_disk bkt_there (tmp_free key) body empty_meta refl

pub key_there : HasObject env sized bkt key bkt_valid (raw body.content) object_meta object_disk
key_there =
    after-HasObject env sized bkt key bkt_valid bucket_disk bkt_there (tmp_free key) body empty_meta
      refl

pub bkt_still : HasBucket bkt object_disk
bkt_still = key_there.in_bucket

pub new_tmp_free : lookup (temp_path env bkt new_key) object_disk ≡ none
new_tmp_free =
    rw
      (temp_path-valid env sized bkt new_key bkt_valid
        ∙ sym (temp_path-valid env sized bkt key bkt_valid))
      (put_disk-temp env sized bkt key bkt_valid bucket_disk bkt_there (tmp_free key) body
        empty_meta)

abbrev second_byte : Bytes → ℕ
second_byte (a ∷ b ∷ s) = b
second_byte s = 0

pub keys-IsOther : IsOther env bkt key bkt new_key
unfolding object_file_name hex_encode
keys-IsOther e = let h : ◌≡◌ {A = ℕ} 49 51 = ap second_byte e.1 in absurd (omega (arith, h))

-- The tree where only the metadata of the object is left.
abbrev pub orphan_disk : Disk
orphan_disk = erase (object_path env bkt key) object_disk

pub IsOrphan-there : IsOrphan env sized bkt key bkt_valid object_meta orphan_disk
IsOrphan-there = record {
  in_bucket = record {
    layout = HasLayout-erase _ object_disk bkt_still.layout;
    content = bkt_still.content;
    bucket =
        lookup-erase_ne _ _ object_disk
          (λ e. bucket-ne-object env sized bkt key bkt_valid bkt bkt_valid (sym e))
        ∙ bkt_still.bucket;
  };
  no_object = lookup-erase_self (object_path env bkt key) object_disk;
  metadata =
      lookup-erase_ne _ _ object_disk (object-ne-metadata env sized bkt key bkt_valid)
      ∙ key_there.metadata;
}

pub no_bucket : lookup (bucket_metadata_path bkt) [] ≡ none
unfolding lookup
no_bucket = refl

pub one_valid : valid_part_number 1 ≡ true
unfolding valid_part_number
one_valid = refl
