-- ===== src/Tests/Uploads.antt =====
-- An upload of two parts in the small data directory, and the theorems on uploads for it.
use home_store.Prelude.{ℕ, ◌≡◌, ◌≢◌, arith, refl, true, none, some, List, [], ◌∷◌}
use home_store.Prelude.Bytes.{Bytes, codes}
use home_store.Prelude.Sort.{sort_by}
use home_store.Storage.{ObjectMeta, MultipartUpload, MultipartPart, CompletedPart, upload_not_found}
use home_store.Os.Path.{FilePath, path_eq, dir_of}
use home_store.Os.Disk.{
  Disk, dir, file, raw, json, bucket_doc, upload_doc, part_doc, lookup, insert,
}
use home_store.Os.Exec.{ok, err, ◌>>◌}
use home_store.Os.Layout.{HasLayout, HasLayout-insert, dir_path}
use home_store.Os.Calm.{Gives}
use home_store.Fs.Paths.{bucket_metadata_path, object_path, upload_path, hex_encode}
use home_store.Fs.Parts.{
  part_data_path, part_metadata_path, valid_part_number, hex_decode, trim_quotes,
}
use home_store.Fs.Objects.{empty_meta, get_object}
use home_store.Fs.Touches.Objects.{temp_path}
use home_store.Fs.Multipart.{
  json_part, uploaded_part, state_path, by_selected, multipart_etag, upload_part, list_parts,
  complete_multipart_upload, abort_multipart_upload,
}
use home_store.Fs.Runs.Uploads.{HasUpload, cut_disk, abort_multipart_upload-gone}
use home_store.Fs.Runs.Uploads.Combine.{Piece, HasPiece, HasPieces, selected_of, combined_path}
use home_store.Fs.Runs.Uploads.Store.{part_temp, stored_disk, upload_part-stores}
use home_store.Fs.Runs.Uploads.Complete.{complete_multipart_upload-get_object}
use home_store.Tests.Data.{
  one_valid, env, sized, bkt, bkt_valid, key, info, body, bucket_disk, bucket_disk-HasLayout,
}

abbrev two_parts : MultipartUpload
two_parts = record { upload_id = codes "id"; key = key; initiated = 1; meta = empty_meta }

abbrev place : FilePath
place = upload_path env bkt (codes "id")

abbrev piece : ℕ → Bytes → Bytes → Piece
piece n content etag = record {
  selected = record { part_number = n; etag = etag };
  content = content;
  hash = content;
  stored = record { part_number = n; etag = etag; size = 2; last_modified = 1 };
}

abbrev pieces : List Piece
pieces = piece 1 (codes "hi") (codes "\"6869\"") ∷ piece 2 (codes "ya") (codes "\"7961\"") ∷ []

abbrev state_disk : Disk
state_disk =
    insert (state_path place) (file (json (upload_doc two_parts))) (insert place dir bucket_disk)

abbrev upload_disk : Disk
upload_disk = insert (part_data_path place 1) (file (raw (codes "hi"))) (
    insert (part_metadata_path place 1)
      (file (
        json (
          part_doc
            (record { part_number = 1; etag = codes "\"6869\""; size = 2; last_modified = 1 }))))
      (insert (part_data_path place 2) (file (raw (codes "ya"))) (
        insert (part_metadata_path place 2)
          (file (
            json (
              part_doc (record {
                part_number = 2;
                etag = codes "\"7961\"";
                size = 2;
                last_modified = 1;
              }))))
          state_disk)))

upload_disk-HasLayout : HasLayout upload_disk
unfolding dir_path upload_path part_data_path part_metadata_path
upload_disk-HasLayout = HasLayout-insert _ _ _ refl (
    HasLayout-insert _ _ _ refl (
      HasLayout-insert _ _ _ refl (
        HasLayout-insert _ _ _ refl
          (HasLayout-insert _ _ _ refl (HasLayout-insert _ _ _ refl bucket_disk-HasLayout)))))

two_parts-HasUpload : HasUpload env sized bkt bkt_valid two_parts upload_disk
unfolding lookup insert path_eq upload_path part_data_path part_metadata_path bucket_metadata_path
    hex_encode
two_parts-HasUpload = record {
  in_bucket = record {
    layout = upload_disk-HasLayout;
    content = json (bucket_doc info);
    bucket = refl;
  };
  state = refl;
  place = refl;
}

pieces-HasPieces : HasPieces place 0 pieces upload_disk
unfolding lookup insert path_eq upload_path part_data_path part_metadata_path hex_encode
    valid_part_number hex_decode trim_quotes
pieces-HasPieces =
    let one : HasPiece place 0 (piece 1 (codes "hi") (codes "\"6869\"")) upload_disk = record {
      number = refl;
      next = refl;
      meta_file = refl;
      etag = refl;
      decoded = refl;
      data_file = refl;
    } in
    let two : HasPiece place 1 (piece 2 (codes "ya") (codes "\"7961\"")) upload_disk = record {
      number = refl;
      next = refl;
      meta_file = refl;
      etag = refl;
      decoded = refl;
      data_file = refl;
    } in
    (one, (two, tt))

combined_free : lookup (combined_path env sized bkt bkt_valid (codes "id")) upload_disk ≡ none
unfolding lookup insert path_eq upload_path part_data_path part_metadata_path bucket_metadata_path
    hex_encode
combined_free = refl

put_free : lookup (temp_path env bkt key) upload_disk ≡ none
unfolding lookup insert path_eq upload_path part_data_path part_metadata_path bucket_metadata_path
    hex_encode dir_of object_path
put_free = refl

abbrev both : List CompletedPart
both =
    record { part_number = 2; etag = codes "\"7961\"" }
    ∷ record { part_number = 1; etag = codes "\"6869\"" }
    ∷ []

both-sorted : sort_by by_selected both ≡ selected_of pieces
unfolding sort_by
both-sorted = refl

complete_multipart_upload-get_object_example :
    (m : ObjectMeta) × (d' : Disk) × Gives
      (complete_multipart_upload env bkt key (codes "id") both >> get_object env bkt key)
      upload_disk
      (ok (record { content = codes "hiya"; intact = true }, m))
      d'
    × (m.etag ≡ multipart_etag env (codes "hiya") 2)
    × (lookup (state_path place) d' ≡ none)
complete_multipart_upload-get_object_example =
    complete_multipart_upload-get_object env sized bkt bkt_valid two_parts upload_disk
      two_parts-HasUpload pieces pieces-HasPieces combined_free put_free both both-sorted refl

three_valid : valid_part_number 3 ≡ true
unfolding valid_part_number
three_valid = refl

three-ne-one : ◌≢◌ {A = ℕ} 3 1
three-ne-one e = omega (arith, e)

abort_multipart_upload-gone_example :
    let gone = cut_disk env sized bkt bkt_valid (codes "id") upload_disk in
    Gives (abort_multipart_upload env bkt key (codes "id")) upload_disk (ok tt) gone
    × Gives (upload_part env bkt key (codes "id") 3 body) gone (err upload_not_found) gone
    × Gives (list_parts env bkt key (codes "id")) gone (err upload_not_found) gone
    × Gives
        (complete_multipart_upload env bkt key (codes "id") both)
        gone
        (err upload_not_found)
        gone
    × Gives (abort_multipart_upload env bkt key (codes "id")) gone (err upload_not_found) gone
unfolding valid_part_number
abort_multipart_upload-gone_example =
    abort_multipart_upload-gone env sized bkt bkt_valid two_parts upload_disk two_parts-HasUpload 3
      refl body both

part_free :
    lookup
      (part_temp env sized bkt bkt_valid two_parts upload_disk two_parts-HasUpload 3 three_valid
        body)
      upload_disk
    ≡ none
unfolding lookup insert path_eq upload_path part_data_path part_metadata_path bucket_metadata_path
    hex_encode
part_free = refl

upload_part-stores_example :
    let third : MultipartPart = uploaded_part env 3 (codes "hello") 5 in
    let d' =
      stored_disk env sized bkt bkt_valid two_parts upload_disk two_parts-HasUpload 3 three_valid
        body in
    Gives (upload_part env bkt key (codes "id") 3 body) upload_disk (ok third) d'
    × HasUpload env sized bkt bkt_valid two_parts d'
    × (lookup (part_data_path place 3) d' ≡ some (file (raw (codes "hello"))))
    × (lookup (part_metadata_path place 3) d' ≡ some (file (json (part_doc (json_part env third)))))
    × ((lookup (part_data_path place 1) d' ≡ lookup (part_data_path place 1) upload_disk)
        × (lookup (part_metadata_path place 1) d'
            ≡ lookup (part_metadata_path place 1) upload_disk))
upload_part-stores_example =
    upload_part-stores env sized bkt bkt_valid two_parts upload_disk two_parts-HasUpload 3
      three_valid body refl part_free 1 one_valid three-ne-one
