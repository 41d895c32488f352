-- ===== src/Tests/Examples.antt =====
-- The theorems at concrete inputs.
use home_store.Prelude.{◌+◌, ◌≤◌, ◌≡◌, ◌↔◌, refl, sym, true, List, [], ◌∷◌, map, arith, length}
use home_store.Prelude.Bytes.{codes}
use home_store.Storage.{
  ObjectMeta, object_not_found, bucket_not_empty, bucket_exists as exists_error,
}
use home_store.Storage.Names.{is_valid_bucket_name, is_ip_address}
use home_store.Storage.Names.Rules.{
  IsIpAddress, IsBucketName, is_ip_address_iff, is_valid_bucket_name_iff,
}
use home_store.Os.Disk.{raw, lookup}
use home_store.Os.Exec.{World, ok, err, passed, refused, partial, ◌>>◌}
use home_store.Os.Layout.{HasLayout}
use home_store.Os.Calm.{Gives}
use home_store.Fs.Paths.{object_path, metadata_path}
use home_store.Fs.Objects.{
  empty_meta, put_object, get_object, head_object, delete_object, copy_object, rename_object,
}
use home_store.Fs.Buckets.{get_bucket_location, create_bucket, delete_bucket, bucket_exists}
use home_store.Fs.Runs.Buckets.{created_disk, held_disk, create_bucket-then, delete_bucket-refuses}
use home_store.Fs.Multipart.{
  create_multipart_upload, upload_part, list_parts, complete_multipart_upload,
  abort_multipart_upload, list_multipart_uploads,
}
use home_store.Fs.Listing.{list_objects, list_page, info_of}
use home_store.Fs.Listing.Flat.{list_page_flat, flat_page, listed}
use home_store.Fs.Listing.Pages.{all_pages, all_pages_lem}
use home_store.Fs.Listing.Bounds.{list_page-bounds}
use home_store.Fs.Touches.Frame.{put_object-other, delete_object-other}
use home_store.Fs.History.{Event, create, put, remove, history}
use home_store.Fs.History.Invariant.{history-HasLayout}
use home_store.Fs.Runs.RoundTrip.{put_object-get_object, put_object-head_object}
use home_store.Fs.Runs.Moves.{
  copy_back, copy_disk, renamed_disk, with_read, copy_object-get_object, rename_object-moves,
}
use home_store.Fs.Runs.Missing.{Refuses, object_operations-missing, upload_operations-missing}
use home_store.Os.Calls.{Reader}
use home_store.Fs.Runs.Atomic.{IsAtomic, put_object-IsAtomic}
use home_store.Fs.Runs.Orphan.{delete_object-orphan}
use home_store.Tests.Data.{
  no_bucket, one_valid, env, sized, bkt, bkt_valid, key, new_key, body, bucket_disk,
  bucket_disk-HasLayout, bkt_there, tmp_free, object_disk, metadata, one_a_page, grouped,
  metadata-HasDistinctKeys, metadata-HasKey, metadata-listed, object_meta, key_there, bkt_still,
  new_tmp_free, keys-IsOther, orphan_disk, IsOrphan-there, empty-HasLayout,
}

is_valid_bucket_name_iff_example :
    (is_valid_bucket_name (codes "my-bucket.v2") ≡ true) ↔ IsBucketName (codes "my-bucket.v2")
is_valid_bucket_name_iff_example = is_valid_bucket_name_iff (codes "my-bucket.v2")

is_ip_address_iff_example :
    (is_ip_address (codes "192.168.1.1") ≡ true) ↔ IsIpAddress (codes "192.168.1.1")
is_ip_address_iff_example = is_ip_address_iff (codes "192.168.1.1")

-- A bucket is made, an object is stored, whose metadata cannot be written, and is deleted.
abbrev events : List Event
events =
    record { env = env; request = create bkt; faults = [] }
    ∷ record {
      env = env;
      request = put bkt key body empty_meta;
      faults =
          passed ∷ passed ∷ passed ∷ passed ∷ passed ∷ passed ∷ passed ∷ partial (λ p. true) ∷ [];
    }
    ∷ record { env = env; request = remove bkt key; faults = passed ∷ refused ∷ [] }
    ∷ []

history-HasLayout_example : HasLayout (history events bucket_disk)
history-HasLayout_example =
    history-HasLayout events
      (
        record { sized = sized; named = bkt_valid },
        (
          record { sized = sized; named = bkt_valid },
          (record { sized = sized; named = bkt_valid }, tt),
        ),
      )
      bucket_disk bucket_disk-HasLayout

put_object-get_object_example :
    Gives
      (put_object env bkt key body empty_meta >> get_object env bkt key)
      bucket_disk
      (ok (body, object_meta))
      object_disk
put_object-get_object_example =
    put_object-get_object env sized bkt key bkt_valid bucket_disk bkt_there (tmp_free key) body
      empty_meta refl

put_object-head_object_example :
    Gives
      (put_object env bkt key body empty_meta >> head_object env bkt key)
      bucket_disk
      (ok object_meta)
      object_disk
put_object-head_object_example =
    put_object-head_object env sized bkt key bkt_valid bucket_disk bkt_there (tmp_free key) body
      empty_meta refl

-- The copy goes through with a second temporary file of the same name.
abbrev new_meta : ObjectMeta
new_meta =
    copy_back env sized bkt key bkt new_key bkt_valid bkt_valid (raw body.content) object_meta
      object_disk key_there bkt_still new_tmp_free

copy_object-get_object_example :
    Gives
      (with_read (copy_object env bkt key bkt new_key) (get_object env bkt new_key))
      object_disk
      (ok (new_meta, (body, new_meta)))
      (copy_disk env sized bkt key bkt new_key bkt_valid bkt_valid
        (raw body.content)
        object_meta
        object_disk
        key_there
        bkt_still
        new_tmp_free)
copy_object-get_object_example =
    copy_object-get_object env sized bkt key bkt new_key bkt_valid bkt_valid (raw body.content)
      object_meta object_disk key_there bkt_still new_tmp_free

rename_object-moves_example :
    Gives
      (with_read (rename_object env bkt key bkt new_key) (get_object env bkt new_key))
      object_disk
      (ok (new_meta, (body, new_meta)))
      (renamed_disk env sized bkt key bkt new_key bkt_valid bkt_valid
        (raw body.content)
        object_meta
        object_disk
        key_there
        bkt_still
        new_tmp_free
        keys-IsOther)
    × Gives
        (rename_object env bkt key bkt new_key >> get_object env bkt key)
        object_disk
        (err object_not_found)
        (renamed_disk env sized bkt key bkt new_key bkt_valid bkt_valid
          (raw body.content)
          object_meta
          object_disk
          key_there
          bkt_still
          new_tmp_free
          keys-IsOther)
rename_object-moves_example =
    rename_object-moves env sized bkt key bkt new_key bkt_valid bkt_valid (raw body.content)
      object_meta object_disk key_there bkt_still new_tmp_free keys-IsOther

abbrev other_body : Reader
other_body = record { content = codes "bye"; intact = true }

-- The rename to the object's place fails.
abbrev faulty : World
faulty = record {
  disk = object_disk;
  faults = passed ∷ passed ∷ passed ∷ partial (λ p. true) ∷ refused ∷ [];
}

put_object-other_example :
    let w' = (put_object env bkt new_key body empty_meta faulty).1 in
    (lookup (object_path env bkt key) w'.disk ≡ lookup (object_path env bkt key) object_disk)
    × (lookup (metadata_path env bkt key) w'.disk ≡ lookup (metadata_path env bkt key) object_disk)
put_object-other_example =
    put_object-other env sized bkt new_key bkt key bkt_valid bkt_valid
      (λ e. keys-IsOther (sym e.0, sym e.1)) body empty_meta faulty

delete_object-other_example :
    let w' = (delete_object env bkt new_key faulty).1 in
    (lookup (object_path env bkt key) w'.disk ≡ lookup (object_path env bkt key) object_disk)
    × (lookup (metadata_path env bkt key) w'.disk ≡ lookup (metadata_path env bkt key) object_disk)
delete_object-other_example =
    delete_object-other env sized bkt new_key bkt key bkt_valid bkt_valid
      (λ e. keys-IsOther (sym e.0, sym e.1)) faulty

list_page_flat_example : list_page one_a_page metadata ≡ flat_page one_a_page metadata
list_page_flat_example = list_page_flat one_a_page metadata refl

all_pages_lem_example : all_pages 4 one_a_page metadata ≡ map info_of (listed one_a_page metadata)
all_pages_lem_example =
    all_pages_lem metadata metadata-HasDistinctKeys metadata-HasKey 4 one_a_page refl
      (omega (arith, metadata-listed))

list_page-bounds_example :
    (length (list_page grouped metadata).objects
        + length (list_page grouped metadata).common_prefixes
      ≤ 2)
    × ((list_page grouped metadata).is_truncated ≡ true
        → length (list_page grouped metadata).objects
            + length (list_page grouped metadata).common_prefixes
          ≡ 2)
list_page-bounds_example = list_page-bounds grouped metadata

object_operations-missing_example :
    Refuses [] (put_object env bkt key body empty_meta)
    × Refuses [] (get_object env bkt key)
    × Refuses [] (head_object env bkt key)
    × Refuses [] (delete_object env bkt key)
    × Refuses [] (copy_object env bkt key bkt new_key)
    × Refuses [] (rename_object env bkt key bkt new_key)
    × Refuses [] (list_objects bkt grouped)
    × Refuses [] (get_bucket_location bkt)
object_operations-missing_example =
    object_operations-missing bkt bkt_valid [] empty-HasLayout no_bucket env key bkt new_key body
      empty_meta grouped

upload_operations-missing_example :
    Refuses [] (create_multipart_upload env bkt key empty_meta)
    × Refuses [] (upload_part env bkt key (codes "id") 1 body)
    × Refuses [] (list_parts env bkt key (codes "id"))
    × Refuses [] (complete_multipart_upload env bkt key (codes "id") [])
    × Refuses [] (abort_multipart_upload env bkt key (codes "id"))
    × Refuses [] (list_multipart_uploads bkt)
upload_operations-missing_example =
    upload_operations-missing bkt bkt_valid [] empty-HasLayout no_bucket env key (codes "id")
      empty_meta 1 body [] one_valid

delete_object-orphan_example :
    Gives (get_object env bkt key) orphan_disk (err object_not_found) orphan_disk
    × Gives
        (delete_object env bkt key >> head_object env bkt key)
        orphan_disk
        (ok object_meta)
        orphan_disk
delete_object-orphan_example =
    delete_object-orphan env sized bkt key bkt_valid object_meta orphan_disk IsOrphan-there

create_bucket-then_example :
    Gives
      (create_bucket env bkt >> bucket_exists bkt)
      []
      (ok true)
      (created_disk bkt bkt_valid env [] empty-HasLayout no_bucket)
    × Gives
        (create_bucket env bkt >> create_bucket env bkt)
        []
        (err exists_error)
        (created_disk bkt bkt_valid env [] empty-HasLayout no_bucket)
    × Gives
        (create_bucket env bkt >> get_bucket_location bkt)
        []
        (ok (codes "us-east-1"))
        (created_disk bkt bkt_valid env [] empty-HasLayout no_bucket)
create_bucket-then_example = create_bucket-then bkt bkt_valid env [] empty-HasLayout no_bucket

delete_bucket-refuses_example :
    Gives
      (put_object env bkt key body empty_meta >> delete_bucket bkt)
      bucket_disk
      (err bucket_not_empty)
      (held_disk bkt bkt_valid env sized key bucket_disk bkt_there
        (tmp_free key)
        body
        empty_meta
        refl)
delete_bucket-refuses_example =
    delete_bucket-refuses bkt bkt_valid env sized key bucket_disk bkt_there (tmp_free key) body
      empty_meta refl

put_object-IsAtomic_example :
    let (r, w') = put_object env bkt key other_body empty_meta faulty in
    IsAtomic env sized bkt key bkt_valid other_body object_disk r w'.disk
put_object-IsAtomic_example =
    put_object-IsAtomic env sized bkt key bkt_valid other_body empty_meta faulty
