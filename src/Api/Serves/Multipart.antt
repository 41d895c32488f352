-- ===== src/Api/Serves/Multipart.antt =====
-- internal/api/multipart.go: the handlers answer and keep.
use home_store.Prelude.{refl, ℕ, Option, none, some, List, []}
use home_store.Prelude.Bytes.{Bytes, codes, bytes_eq}
use home_store.Storage.{
  ObjectMeta, MultipartUpload, MultipartPart, Error, bucket_not_found, upload_not_found,
  invalid_part,
}
use home_store.Os.Disk.{Disk}
use home_store.Os.Exec.{Result, ok, err}
use home_store.Os.Calls.{Reader}
use home_store.Backend.{Backend}
use home_store.Http.{HttpRequest, header_get, query_get}
use home_store.Http.Numbers.{ℤ, atoi}
use home_store.S3.Types.{CompleteMultipartUploadRequest}
use home_store.Api.Responses.{Library}
use home_store.Api.Parse.{bucket_of-IsBare}
use home_store.Api.Multipart.{
  multipart_error, initiated_response, part_response, copied_part_response, completed_response,
  aborted_response, uploads_response, parts_response, upload_copy, upload_source, upload_numbered,
  complete_decoded, part_number_of, handle_create_multipart_upload, handle_upload_part,
  handle_complete_multipart_upload, handle_abort_multipart_upload, handle_list_multipart_uploads,
  handle_list_parts,
}
use home_store.Api.Serves.{HasStatus, Serves, Serves-pure, Serves-attempt, Serves-if, Serves-reply}
use home_store.Backend.Keeps.{KeepsReads, KeepsWrites}

module _ (lib : Library) where
  multipart_error-HasStatus : (e : Error) → HasStatus (multipart_error lib e)
  multipart_error-HasStatus bucket_not_found = refl
  multipart_error-HasStatus upload_not_found = refl
  multipart_error-HasStatus invalid_part = refl
  multipart_error-HasStatus _ = refl

  initiated-HasStatus :
      (r : HttpRequest) (x : Result MultipartUpload) → HasStatus (initiated_response lib r x)
  initiated-HasStatus r (ok u) = refl
  initiated-HasStatus r (err e) = multipart_error-HasStatus e

  part-HasStatus : (x : Result MultipartPart) → HasStatus (part_response lib x)
  part-HasStatus (ok p) = refl
  part-HasStatus (err e) = multipart_error-HasStatus e

  copied-HasStatus : (x : Result MultipartPart) → HasStatus (copied_part_response lib x)
  copied-HasStatus (ok p) = refl
  copied-HasStatus (err e) = multipart_error-HasStatus e

  completed-HasStatus :
      (r : HttpRequest) (x : Result ObjectMeta) → HasStatus (completed_response lib r x)
  completed-HasStatus r (ok m) = refl
  completed-HasStatus r (err e) = multipart_error-HasStatus e

  aborted-HasStatus : (x : Result Unit) → HasStatus (aborted_response lib x)
  aborted-HasStatus (ok t) = refl
  aborted-HasStatus (err e) = multipart_error-HasStatus e

  uploads-HasStatus :
      (r : HttpRequest) (x : Result (List MultipartUpload)) → HasStatus (uploads_response lib r x)
  uploads-HasStatus r (ok us) = refl
  uploads-HasStatus r (err e) = multipart_error-HasStatus e

  parts-HasStatus :
      (r : HttpRequest) (x : Result (List MultipartPart)) → HasStatus (parts_response lib r x)
  parts-HasStatus r (ok ps) = refl
  parts-HasStatus r (err e) = multipart_error-HasStatus e

  module _ {P : Disk → Type 0} (backend : Backend) (reads : KeepsReads P backend) where
    pub handle_list_multipart_uploads-Serves :
        (r : HttpRequest) → Serves P (handle_list_multipart_uploads lib backend r)
    unfolding handle_list_multipart_uploads
    handle_list_multipart_uploads-Serves r =
        Serves-reply _ _ (reads.list_multipart_uploads _) (uploads-HasStatus r)

    pub handle_list_parts-Serves : (r : HttpRequest) → Serves P (handle_list_parts lib backend r)
    unfolding handle_list_parts
    handle_list_parts-Serves r = Serves-reply _ _ (reads.list_parts _ _ _) (parts-HasStatus r)

    module _ (writes : KeepsWrites P backend) where
      pub handle_create_multipart_upload-Serves :
          (r : HttpRequest) → Serves P (handle_create_multipart_upload lib backend r)
      unfolding handle_create_multipart_upload
      handle_create_multipart_upload-Serves r =
          Serves-reply _ _ (writes.create_multipart_upload _ _ _ (bucket_of-IsBare r))
            (initiated-HasStatus r)

      upload_copy-Serves :
          (r : HttpRequest) (n : ℕ) (x : Result (Reader × ObjectMeta))
          → Serves P (upload_copy lib backend r n x)
      upload_copy-Serves r n (err e) = Serves-pure _ (multipart_error-HasStatus e)
      upload_copy-Serves r n (ok (b, m)) =
          Serves-reply _ _ (writes.upload_part _ _ _ _ _ (bucket_of-IsBare r)) copied-HasStatus

      upload_source-Serves :
          (r : HttpRequest) (n : ℕ) (o : Option (Bytes × Bytes))
          → Serves P (upload_source lib backend r n o)
      upload_source-Serves r n none = Serves-pure _ refl
      upload_source-Serves r n (some (b, k)) =
          Serves-attempt _ _ (reads.get_object b k) (upload_copy-Serves r n)

      upload_numbered-Serves :
          (r : HttpRequest) (s : Bytes) (o : Option ℤ)
          → Serves P (upload_numbered lib backend r s o)
      upload_numbered-Serves r s none = Serves-pure _ refl
      upload_numbered-Serves r s (some n) =
          Serves-if (bytes_eq s []) _ _
            (λ _.
              Serves-reply _ _ (writes.upload_part _ _ _ _ _ (bucket_of-IsBare r)) part-HasStatus)
            (λ _. upload_source-Serves r (part_number_of n) _)

      pub handle_upload_part-Serves :
          (r : HttpRequest) → Serves P (handle_upload_part lib backend r)
      unfolding handle_upload_part
      handle_upload_part-Serves r =
          upload_numbered-Serves r (header_get (codes "x-amz-copy-source") r.header)
            (atoi (query_get (codes "partNumber") r.query))

      complete_decoded-Serves :
          (r : HttpRequest) (o : Option CompleteMultipartUploadRequest)
          → Serves P (complete_decoded lib backend r o)
      complete_decoded-Serves r none = Serves-pure _ refl
      complete_decoded-Serves r (some q) =
          Serves-reply _ _ (writes.complete_multipart_upload _ _ _ _ (bucket_of-IsBare r))
            (completed-HasStatus r)

      pub handle_complete_multipart_upload-Serves :
          (r : HttpRequest) → Serves P (handle_complete_multipart_upload lib backend r)
      unfolding handle_complete_multipart_upload
      handle_complete_multipart_upload-Serves r =
          complete_decoded-Serves r (lib.decode_complete r.body)

      pub handle_abort_multipart_upload-Serves :
          (r : HttpRequest) → Serves P (handle_abort_multipart_upload lib backend r)
      unfolding handle_abort_multipart_upload
      handle_abort_multipart_upload-Serves r =
          Serves-reply _ _ (writes.abort_multipart_upload _ _ _ (bucket_of-IsBare r))
            aborted-HasStatus
