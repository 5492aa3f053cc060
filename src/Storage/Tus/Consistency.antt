-- ===== src/Storage/Tus/Consistency.antt =====
-- What holds of rows and files in every state of the service.
use stackhouse.Prelude.{
  ℕ, ◌+◌, ◌≤◌, ◌≡◌, refl, Bool, true, false, some, [], ◌++◌, take, if◌then◌else◌, Option-cases, inl,
  inr, ltb, ◌==◌, not, length, ◌⊎◌,
}
use stackhouse.Prelude.Text.{Text}
use stackhouse.Prelude.Assoc.{Assoc, get, insert}
use stackhouse.Errors.{Result, StackhouseError, err, internal, database, not_found, invalid_payload}
use stackhouse.Storage.Tus.{
  Bytes, Row, TusService, Faults, max_upload_size, create_upload, append_and_record, patch_upload,
  terminate_upload,
}

-- A row whose upload has not moved, with its file.
abbrev pub IsUnmoved : Assoc Bytes → Text → Row → Type 0
IsUnmoved files id row =
    (row.upload_offset ≡ 0)
    × (row.completed ≡ false)
    × (row.upload_length ≤ max_upload_size)
    × ((content : Bytes) × (get id files ≡ some content))

abbrev pub AllUnmoved : TusService → Type 0
AllUnmoved s = (id : Text) (row : Row) → get id s.uploads ≡ some row → IsUnmoved s.files id row

abbrev pub empty_service : TusService
empty_service = record { uploads = []; files = [] }

-- What the clients do, while disk and store may fail in any way.
pub data Reachable : TusService → Type 0 where
  started : Reachable empty_service
  created :
      (f : Faults) (id bucket key : Text) (n : ℕ) (metadata : Text) (s : TusService)
      → Reachable s
      → Reachable (create_upload f id bucket key n metadata s).1
  patched :
      (f : Faults) (id : Text) (offset : ℕ) (bytes : Bytes) (s : TusService)
      → Reachable s
      → Reachable (patch_upload f id offset bytes s).1
  terminated :
      (f : Faults) (id : Text) (s : TusService)
      → Reachable s
      → Reachable (terminate_upload f id s).1

-- An answer that is refused: nothing is changed, or only the file of the upload.
abbrev pub IsRefused : Text → TusService → Result ℕ × TusService → Type 0
IsRefused id s a =
    (e : StackhouseError) × ((a ≡ (err e, s))
      ⊎ ((content : Bytes) × (a ≡ (err e, record s { files = insert id content s.files }))))

if-IsRefused :
    (id : Text) (s : TusService) (b : Bool) (x y : Result ℕ × TusService)
    → IsRefused id s x
    → IsRefused id s y
    → IsRefused id s (if b then x else y)
if-IsRefused id s true x y h k = h
if-IsRefused id s false x y h k = k

append_and_record-IsRefused :
    (f : Faults) (id : Text) (bytes : Bytes) (s : TusService)
    → IsRefused id s (append_and_record f id bytes s)
unfolding append_and_record
append_and_record-IsRefused f id bytes s = elim (Option-cases (get id s.files)) [
  | inl gone ↦ (internal "Open upload file: {}", inl (rw (gone, append_and_record) refl))
  | inr (content, there) ↦
      rw (there, append_and_record)
        (if-IsRefused id s f.opens _ _ (internal "Open upload file: {}", inl refl)
          (if-IsRefused id s f.writes _ _
            (internal "Write upload data: {}", inr (content ++ take f.written bytes, refl))
            (database "Execute failed: {}", inr (content ++ bytes, refl))))
]

pub patch_upload-IsRefused :
    (f : Faults) (id : Text) (offset : ℕ) (bytes : Bytes) (s : TusService)
    → IsRefused id s (patch_upload f id offset bytes s)
unfolding patch_upload
patch_upload-IsRefused f id offset bytes s =
    if-IsRefused id s f.queries _ _ (database "Query failed: {}", inl refl)
      (elim (Option-cases (get id s.uploads)) [
        | inl gone ↦ rw gone (not_found "Upload not found", inl refl)
        | inr (row, found) ↦ rw found (
            if-IsRefused id s (not (offset == row.upload_offset)) _ _
              (invalid_payload "Offset mismatch: expected {}, got {}", inl refl)
              (if-IsRefused id s (ltb row.upload_length (row.upload_offset + length bytes)) _ _
                (invalid_payload "Upload exceeds declared length", inl refl)
                (append_and_record-IsRefused f id bytes s)))
      ])
