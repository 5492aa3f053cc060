-- ===== src/Storage/Tus/Tests.antt =====
-- Tests and instances of uploads.
use stackhouse.Prelude.{
  ℕ, ◌≡◌, ◌≤◌, refl, Bool, true, false, Option, none, some, List, [], ◌∷◌, ◌++◌, arith, length, All,
}
use stackhouse.Prelude.Text.{Text, codes}
use stackhouse.Prelude.Assoc.{Assoc, get}
use stackhouse.Json.{Value, null}
use stackhouse.Errors.{ok, err, database, invalid_payload}
use stackhouse.Storage.Tus.{
  Row, TusService, no_faults, fresh_row, create_upload, patch_upload, text_read,
}
use stackhouse.Storage.Tus.Http.{
  reply, number_header, text_header, tus_create_handler, tus_head_handler,
}
use stackhouse.Storage.Tus.Consistency.{empty_service}
use stackhouse.Storage.Tus.Retry.{resend, copies, patch_upload-resend}
use stackhouse.Storage.Tus.Replies.{Patch, patch_all, IsError, tus_head_handler-patch_all}

abbrev id : Text
id = codes "u"

abbrev row : Row
row = fresh_row (codes "b") (codes "k") 5 []

-- An upload of five bytes.
abbrev fresh : TusService
fresh = record { uploads = (id, row) ∷ []; files = (id, []) ∷ [] }

abbrev reached : TusService
reached =
    (patch_upload no_faults id 0 (1 ∷ 2 ∷ [])
      (create_upload no_faults id (codes "b") (codes "k") 5 [] empty_service).1).1

-- The bytes are in the file, and the row does not know of them.
reached_state : reached ≡ record { uploads = (id, row) ∷ []; files = (id, 1 ∷ 2 ∷ []) ∷ [] }
unfolding patch_upload get create_upload stackhouse.Prelude.Assoc.insert
reached_state = refl

-- A bucket whose name is a list in JSON is lost.
bucket_read : text_read (λ t. some null) (codes "[1]") ≡ []
bucket_read = refl

patch_upload-resend_example :
    ((patch_upload no_faults id 0 (3 ∷ 4 ∷ []) (resend 4 id 0 (3 ∷ 4 ∷ []) fresh)).0
      ≡ err (database "Execute failed: {}"))
    × (get id (resend 4 id 0 (3 ∷ 4 ∷ []) fresh).uploads ≡ some row)
    × (get id (resend 4 id 0 (3 ∷ 4 ∷ []) fresh).files ≡ some ([] ++ copies 4 (3 ∷ 4 ∷ [])))
unfolding get
patch_upload-resend_example =
    patch_upload-resend 4 id (3 ∷ 4 ∷ []) [] row fresh refl refl (omega arith)

abbrev whole : Patch
whole = record {
  faults = no_faults;
  offset = some (codes "0");
  content_type = some (codes "application/offset+octet-stream");
  body = 1 ∷ 2 ∷ 3 ∷ 4 ∷ 5 ∷ [];
}

abbrev no_json : Text → Option Value
no_json t = none

abbrev no_base64 : Text → Option Text
no_base64 t = none

abbrev made : TusService
made =
    (tus_create_handler no_base64 no_faults id (codes "k") (some (codes "5")) none empty_service).1

tus_head_handler-patch_all_example :
    (n : ℕ) × (number_header (invalid_payload "Upload-Length header required") (some (codes "5"))
      ≡ ok n)
    × All IsError (patch_all id (whole ∷ whole ∷ []) made).0
    × (tus_head_handler no_json no_faults id (patch_all id (whole ∷ whole ∷ []) made).1
        ≡ ok (record (reply 200) {
          upload_offset = some 0;
          upload_length = some n;
          upload_metadata = some (text_read no_json (text_header none));
        }))
unfolding tus_create_handler create_upload
tus_head_handler-patch_all_example =
    tus_head_handler-patch_all no_json no_base64 no_faults id (codes "k") (some (codes "5")) none
      empty_service
      (record (reply 201) { location = some (codes "/v1/storage/tus/u"); upload_offset = some 0 })
      (whole ∷ whole ∷ []) refl
