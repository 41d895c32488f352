-- ===== src/Storage/Names/Tests.antt =====
-- Bucket names of the unit tests of the source, and a few more.
use home_store.Prelude.{◌≡◌, refl, true, false}
use home_store.Prelude.Bytes.{codes}
use home_store.Storage.Names.{is_valid_bucket_name}

accepted : is_valid_bucket_name (codes "my-bucket.v2") ≡ true
unfolding is_valid_bucket_name
accepted = refl

refused :
    (is_valid_bucket_name (codes "ab") ≡ false)
    × (is_valid_bucket_name (codes "a..b") ≡ false)
    × (is_valid_bucket_name (codes "192.168.1.1") ≡ false)
    × (is_valid_bucket_name (codes "-abc") ≡ false)
    × (is_valid_bucket_name (codes "bucket_metadata") ≡ false)
    × (is_valid_bucket_name (codes "192.168.1.1000") ≡ true)
unfolding is_valid_bucket_name
refused = (refl, refl, refl, refl, refl, refl)
