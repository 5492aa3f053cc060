-- ===== src/Storage/Tus/Replies.antt =====
-- What a client reads in the responses.
use stackhouse.Prelude.{
  ℕ, ◌≡◌, refl, ap, ◌∙◌, Option, some, List, [], ◌∷◌, All, Bool-cases, inl, inr, ltb,
}
use stackhouse.Prelude.Text.{Text, codes, text_eq, split}
use stackhouse.Prelude.Assoc.{get, get-insert_self}
use stackhouse.Json.{Value}
use stackhouse.Errors.{StackhouseError, Result, Result-cases, ok, err, invalid_payload}
use stackhouse.Storage.Tus.{
  Bytes, TusService, Faults, no_faults, max_upload_size, fresh_row, create_upload, get_upload,
  text_read,
}
use stackhouse.Storage.Tus.Http.{
  TusReply, reply, number_header, text_header, metadata_pairs, tus_create_handler, tus_head_handler,
  tus_patch_handler,
}
use stackhouse.Storage.Tus.Consistency.{patch_upload-IsRefused}

-- A request to patch, with what fails in it.
pub record Patch : Type 0 where
  pub faults : Faults
  pub offset : Option Text
  pub content_type : Option Text
  pub body : Bytes

-- The responses to patches that are sent one after another, and the state after them.
unfoldable pub patch_all : Text → List Patch → TusService → List (Result TusReply) × TusService
unfolding tus_patch_handler
patch_all id [] s = ([], s)
patch_all id (p ∷ patches) s =
    let (answer, s') = tus_patch_handler p.faults id p.offset p.content_type p.body s in
    let (answers, s'') = patch_all id patches s' in (answer ∷ answers, s'')

abbrev pub IsError : Result TusReply → Type 0
IsError a = (e : StackhouseError) × (a ≡ err e)

-- A patch is answered with an error, and the rows are as they were.
tus_patch_handler-IsError :
    (f : Faults) (id : Text) (offset_header type_header : Option Text) (body : Bytes)
    (s : TusService)
    → IsError (tus_patch_handler f id offset_header type_header body s).0
      × ((tus_patch_handler f id offset_header type_header body s).1.uploads ≡ s.uploads)
unfolding tus_patch_handler
tus_patch_handler-IsError f id offset_header type_header body s =
    elim (Result-cases
      (number_header (invalid_payload "Upload-Offset header required") offset_header)) [
        | inl (e, missing) ↦ rw (missing, tus_patch_handler) ((e, refl), refl)
        | inr (offset, parsed) ↦
            elim (Bool-cases
              (text_eq (text_header type_header) (codes "application/offset+octet-stream"))) [
                | inr other ↦ rw (parsed, tus_patch_handler) (rw other ((_, refl), refl))
                | inl typed ↦
                    let (e, ended) = patch_upload-IsRefused f id offset body s in
                    elim ended [
                      | inl same ↦
                          rw (parsed, tus_patch_handler) (rw typed (rw same ((e, refl), refl)))
                      | inr (content, written) ↦
                          rw (parsed, tus_patch_handler) (rw typed (rw written ((e, refl), refl)))
                    ]
              ]
      ]

patch_all-IsError :
    (id : Text) (patches : List Patch) (s : TusService)
    → All IsError (patch_all id patches s).0 × ((patch_all id patches s).1.uploads ≡ s.uploads)
unfolding patch_all
patch_all-IsError id [] s = (tt, refl)
patch_all-IsError id (p ∷ patches) s =
    let (failed, kept) = tus_patch_handler-IsError p.faults id p.offset p.content_type p.body s in
    let (failures, kept') =
      patch_all-IsError id patches
        (tus_patch_handler p.faults id p.offset p.content_type p.body s).1 in
    ((failed, failures), kept' ∙ kept)

-- The row of an upload that is created.
get-create_upload :
    (f : Faults) (id bucket key : Text) (n : ℕ) (metadata u : Text) (s : TusService)
    → (create_upload f id bucket key n metadata s).0 ≡ ok u
    → get id (create_upload f id bucket key n metadata s).1.uploads
      ≡ some (fresh_row bucket key n metadata)
unfolding create_upload
get-create_upload f id bucket key n metadata u s h = elim (Bool-cases (ltb max_upload_size n)) [
  | inl large ↦ cc (large, h)
  | inr fine ↦ elim (Bool-cases f.creates) [
    | inl e ↦ cc (fine, e, h)
    | inr e ↦ elim (Bool-cases f.inserts) [
      | inl e' ↦ cc (fine, e, e', h)
      | inr e' ↦
          rw (fine, create_upload)
            (rw e (rw e' (get-insert_self id (fresh_row bucket key n metadata) s.uploads)))
    ]
  ]
]

created_row :
    (decode : Text → Option Text) (f : Faults) (id fallback : Text)
    (length_header metadata_header : Option Text) (s : TusService) (created : TusReply)
    → (tus_create_handler decode f id fallback length_header metadata_header s).0 ≡ ok created
    → (n : ℕ) × (bucket : Text) × (key : Text) × (number_header
          (invalid_payload "Upload-Length header required")
          length_header
        ≡ ok n)
      × (get id (tus_create_handler decode f id fallback length_header metadata_header s).1.uploads
          ≡ some (fresh_row bucket key n (text_header metadata_header)))
unfolding tus_create_handler
created_row decode f id fallback length_header metadata_header s created h =
    let metadata = text_header metadata_header in
    let names = metadata_pairs decode (split b',' metadata) (codes "default") fallback in
    elim (Result-cases
      (number_header (invalid_payload "Upload-Length header required") length_header)) [
        | inl (e, missing) ↦ cc (missing, h)
        | inr (n, parsed) ↦
            elim (Result-cases (create_upload f id names.0 names.1 n metadata s).0) [
              | inl (e, refused) ↦ cc (parsed, refused, h)
              | inr (u, made) ↦ (
                n,
                names.0,
                names.1,
                parsed,
                rw (parsed, tus_create_handler)
                    (get-create_upload f id names.0 names.1 n metadata u s made),
              )
            ]
      ]

-- An upload is created, and a client then sends any patches, whatever fails in them: each of them is answered with an
-- error, and a HEAD on the upload, where the query does not fail, still answers the offset 0, the length declared
-- in `Upload-Length` and the metadata as the store reads them.
pub tus_head_handler-patch_all :
    (json : Text → Option Value) (decode : Text → Option Text) (f : Faults) (id fallback : Text)
    (length_header metadata_header : Option Text) (s : TusService) (created : TusReply)
    (patches : List Patch)
    → (tus_create_handler decode f id fallback length_header metadata_header s).0 ≡ ok created
    → let made = (tus_create_handler decode f id fallback length_header metadata_header s).1 in
      (n : ℕ) × (number_header (invalid_payload "Upload-Length header required") length_header
        ≡ ok n)
      × All IsError (patch_all id patches made).0
      × (tus_head_handler json no_faults id (patch_all id patches made).1
          ≡ ok (record (reply 200) {
            upload_offset = some 0;
            upload_length = some n;
            upload_metadata = some (text_read json (text_header metadata_header));
          }))
unfolding tus_head_handler get_upload
tus_head_handler-patch_all json decode f id fallback length_header metadata_header s created patches
      h =
    let made = (tus_create_handler decode f id fallback length_header metadata_header s).1 in
    let (n, bucket, key, parsed, found) =
      created_row decode f id fallback length_header metadata_header s created h in
    let (failures, kept) = patch_all-IsError id patches made in
    (n, parsed, failures, rw (ap (get id) kept ∙ found, tus_head_handler, get_upload) refl)
