-- ===== src/Storage/Tus.antt =====
-- src/storage/tus.rs: the service for resumable uploads. Files are lists of bytes, rows stand in the table
-- `stackhouse_tus_uploads`. Which calls of the disk and the store fail is the argument
-- `Faults` of each operation.
pub mod Http
pub mod Consistency
pub mod Retry
pub mod Replies
mod Tests
use stackhouse.Prelude.{
  ℕ, ◌+◌, ◌*◌, Bool, true, false, ◌&&◌, ◌||◌, Option, none, some, List, [], ◌∷◌, ◌++◌,
  if◌then◌else◌, ltb, ◌==◌, not, length, take,
}
use stackhouse.Prelude.Text.{Text, codes, text_eq, starts_with}
use stackhouse.Prelude.Assoc.{Assoc, get, insert, remove}
use stackhouse.Json.{Value, bool, string}
use stackhouse.Errors.{
  StackhouseError, Result, ok, err, invalid_payload, internal, database, not_found,
}

abbrev pub Bytes : Type 0
Bytes = List ℕ

abbrev pub max_upload_size : ℕ
max_upload_size = 5 * 1024 * 1024 * 1024

-- A row of the table.
pub record Row : Type 0 where
  pub bucket : Text
  pub key : Text
  pub upload_length : ℕ
  pub upload_offset : ℕ
  pub metadata : Text
  pub completed : Bool

-- `struct TusUpload`, as `get_upload` returns it.
pub record TusUpload : Type 0 where
  pub id : Text
  pub bucket : Text
  pub key : Text
  pub upload_length : ℕ
  pub upload_offset : ℕ
  pub metadata : Text
  pub completed : Bool

-- `struct TusService`: the table and the directory `tus_uploads`.
pub record TusService : Type 0 where
  pub uploads : Assoc Row
  pub files : Assoc Bytes

-- The calls that fail; a write that fails has written its first `written` bytes.
pub record Faults : Type 0 where
  pub creates : Bool
  pub inserts : Bool
  pub queries : Bool
  pub opens : Bool
  pub writes : Bool
  pub written : ℕ
  pub deletes : Bool
  pub removes : Bool

abbrev pub no_faults : Faults
no_faults = record {
  creates = false;
  inserts = false;
  queries = false;
  opens = false;
  writes = false;
  written = 0;
  deletes = false;
  removes = false;
}

-- The row that `create_upload` inserts; offset and `completed` are the column's defaults.
abbrev pub fresh_row : Text → Text → ℕ → Text → Row
fresh_row bucket key upload_length metadata = record {
  bucket = bucket;
  key = key;
  upload_length = upload_length;
  upload_offset = 0;
  metadata = metadata;
  completed = false;
}

-- `create_upload` at the id drawn for it.
unfoldable pub create_upload :
    Faults → Text → Text → Text → ℕ → Text → TusService → Result Text × TusService
create_upload f id bucket key upload_length metadata s =
    if ltb max_upload_size upload_length
    then (err (invalid_payload "Upload too large (max {}GB)"), s)
    else if f.creates
    then (err (internal "Create upload file failed: {}"), s)
    else let s' = record s { files = insert id [] s.files } in
      if f.inserts then (err (database "Execute failed: {}"), s') else (
        ok id,
        record s' { uploads = insert id (fresh_row bucket key upload_length metadata) s.uploads },
      )

-- The value that the store gives for a column of type BOOLEAN (`get_value_from_row`).
abbrev pub boolean_column : Bool → Value
boolean_column b = bool b

-- `v.as_str() == Some("true")`
abbrev pub is_true_text : Value → Bool
is_true_text (string t) = text_eq t (codes "true")
is_true_text _ = false

-- The file is appended to. The statement that would then change the row binds the text of `is_complete`
-- (`SqlValue::Text`) to `completed`, a column of type BOOLEAN: it is refused before anything is changed. An
-- offset and the length of the data stay below 2 ^ 63 each, so their sum does not wrap.
unfoldable pub append_and_record : Faults → Text → Bytes → TusService → Result ℕ × TusService
append_and_record f upload_id bytes s = elim (get upload_id s.files) [
  | none ↦ (err (internal "Open upload file: {}"), s)
  | some content ↦
      if f.opens
      then (err (internal "Open upload file: {}"), s)
      else if f.writes
      then (
        err (internal "Write upload data: {}"),
        record s { files = insert upload_id (content ++ take f.written bytes) s.files },
      )
      else (
        err (database "Execute failed: {}"),
        record s { files = insert upload_id (content ++ bytes) s.files },
      )
]

unfoldable pub patch_upload : Faults → Text → ℕ → Bytes → TusService → Result ℕ × TusService
unfolding append_and_record
patch_upload f upload_id offset bytes s =
    if f.queries then (err (database "Query failed: {}"), s) else elim (get upload_id s.uploads) [
      | none ↦ (err (not_found "Upload not found"), s)
      | some row ↦
          if is_true_text (boolean_column row.completed)
          then (err (invalid_payload "Upload already completed"), s)
          else if not (offset == row.upload_offset)
          then (err (invalid_payload "Offset mismatch: expected {}, got {}"), s)
          else if ltb row.upload_length (row.upload_offset + length bytes)
          then (err (invalid_payload "Upload exceeds declared length"), s)
          else append_and_record f upload_id bytes s
    ]

-- `as_str().map(String::from).unwrap_or_default()`
abbrev pub text_or_default : Value → Text
text_or_default (string t) = t
text_or_default _ = []

-- What is read of a column of type TEXT: the store parses a text that looks like JSON.
abbrev pub text_read : (Text → Option Value) → Text → Text
text_read json t =
    if starts_with (codes "{") t || starts_with (codes "[") t
    then elim (json t) [ none ↦ t | some v ↦ text_or_default v ]
    else t

-- `json` is the parser of serde_json.
unfoldable pub get_upload : (Text → Option Value) → Faults → Text → TusService → Result TusUpload
get_upload json f upload_id s =
    if f.queries then err (database "Query failed: {}") else elim (get upload_id s.uploads) [
      | none ↦ err (not_found "Upload not found")
      | some row ↦ ok (record {
        id = text_read json upload_id;
        bucket = text_read json row.bucket;
        key = text_read json row.key;
        upload_length = row.upload_length;
        upload_offset = row.upload_offset;
        metadata = text_read json row.metadata;
        completed = is_true_text (boolean_column row.completed);
      })
    ]

-- The row goes, then the file, where an error is dropped. `none` is `Ok(())`.
unfoldable pub terminate_upload : Faults → Text → TusService → Option StackhouseError × TusService
terminate_upload f upload_id s = if f.deletes then (some (database "Execute failed: {}"), s) else (
  none,
  record {
    uploads = remove upload_id s.uploads;
    files = if f.removes then s.files else remove upload_id s.files;
  },
)
