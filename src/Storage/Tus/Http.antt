-- ===== src/Storage/Tus/Http.antt =====
-- src/storage/tus.rs: the handlers of the protocol. Decoding base64 to a text is a parameter.
use stackhouse.Prelude.{ℕ, ◌^◌, not, ◌||◌, Option, none, some, List, [], ◌∷◌, ◌++◌, if◌then◌else◌}
use stackhouse.Prelude.Text.{Text, codes, text_eq, split, split_once, trim, parse_unsigned}
use stackhouse.Json.{Value}
use stackhouse.Errors.{StackhouseError, Result, ok, err, invalid_payload, ◌>>=◌}
use stackhouse.Storage.Tus.{
  Bytes, TusService, Faults, max_upload_size, create_upload, patch_upload, get_upload,
  terminate_upload,
}

-- A response: its status and the headers that a handler sets; `Tus-Resumable` is always set.
pub record TusReply : Type 0 where
  pub status : ℕ
  pub location : Option Text
  pub upload_offset : Option ℕ
  pub upload_length : Option ℕ
  pub upload_metadata : Option Text
  pub max_size : Option ℕ

abbrev pub reply : ℕ → TusReply
reply status = record {
  status = status;
  location = none;
  upload_offset = none;
  upload_length = none;
  upload_metadata = none;
  max_size = none;
}

unfoldable pub tus_options_handler : TusReply
tus_options_handler = record (reply 204) { max_size = some max_upload_size }

-- `unwrap_or_default`
abbrev pub text_header : Option Text → Text
text_header none = []
text_header (some t) = t

-- Bucket and key, from the pairs of `Upload-Metadata`.
unfoldable pub metadata_pairs : (Text → Option Text) → List Text → Text → Text → Text × Text
metadata_pairs decode [] bucket key = (bucket, key)
metadata_pairs decode (pair ∷ pairs) bucket key = elim (split_once b' ' (trim pair)) [
  | none ↦ metadata_pairs decode pairs bucket key
  | some (name, value) ↦
      let decoded = text_header (decode value) in
      if text_eq name (codes "bucket")
      then metadata_pairs decode pairs decoded key
      else if text_eq name (codes "filename") || text_eq name (codes "key")
      then metadata_pairs decode pairs bucket decoded
      else metadata_pairs decode pairs bucket key
]

-- `ok_or_else` on a header that is parsed to a `u64`.
abbrev pub number_header : StackhouseError → Option Text → Result ℕ
number_header e none = err e
number_header e (some t) = elim (parse_unsigned (2 ^ 64) t) [ none ↦ err e | some n ↦ ok n ]

-- `fallback` is the key drawn, `id` the id of the upload.
unfoldable pub tus_create_handler :
    (Text → Option Text)
    → Faults
    → Text
    → Text
    → Option Text
    → Option Text
    → TusService
    → Result TusReply × TusService
unfolding metadata_pairs
tus_create_handler decode f id fallback length_header metadata_header s =
    elim (number_header (invalid_payload "Upload-Length header required") length_header) [
      | err e ↦ (err e, s)
      | ok upload_length ↦
          let metadata = text_header metadata_header in
          let (bucket, key) =
            metadata_pairs decode (split b',' metadata) (codes "default") fallback in
          let (created, s') = create_upload f id bucket key upload_length metadata s in
          (
            created >>= λ upload_id. ok (record (reply 201) {
              location = some (codes "/v1/storage/tus/" ++ upload_id);
              upload_offset = some 0;
            }),
            s',
          )
    ]

unfoldable pub tus_head_handler :
    (Text → Option Value) → Faults → Text → TusService → Result TusReply
tus_head_handler json f upload_id s = get_upload json f upload_id s >>= λ upload.
    ok (record (reply 200) {
      upload_offset = some upload.upload_offset;
      upload_length = some upload.upload_length;
      upload_metadata = some upload.metadata;
    })

unfoldable pub tus_patch_handler :
    Faults → Text → Option Text → Option Text → Bytes → TusService → Result TusReply × TusService
tus_patch_handler f upload_id offset_header type_header body s =
    elim (number_header (invalid_payload "Upload-Offset header required") offset_header) [
      | err e ↦ (err e, s)
      | ok offset ↦
          if not (text_eq (text_header type_header) (codes "application/offset+octet-stream"))
          then (err (invalid_payload "Content-Type must be application/offset+octet-stream"), s)
          else let (patched, s') = patch_upload f upload_id offset body s in
            (
              patched >>= λ new_offset. ok (record (reply 204) { upload_offset = some new_offset }),
              s',
            )
    ]

unfoldable pub tus_delete_handler : Faults → Text → TusService → Result TusReply × TusService
tus_delete_handler f upload_id s =
    let (failed, s') = terminate_upload f upload_id s in
    (elim failed [ some e ↦ err e | none ↦ ok (reply 204) ], s')
