-- ===== src/Storage/Tus/Retry.antt =====
-- A patch that is sent again and again.
use stackhouse.Prelude.{
  ℕ, zero, suc, ◌+◌, ◌≤◌, ◌≡◌, refl, sym, ap, ◌∙◌, true, false, some, ◌++◌, [], arith, length, ltb,
  ◌==◌,
}
use mathlib.Core.List.{append-nil, append_assoc}
use stackhouse.Prelude.Text.{Text}
use stackhouse.Prelude.Assoc.{get, insert, get-insert_self}
use stackhouse.Errors.{err, database}
use stackhouse.Storage.Tus.{Bytes, Row, TusService, no_faults, append_and_record, patch_upload}

-- A client that sends the same patch at the same offset.
unfoldable pub resend : ℕ → Text → ℕ → Bytes → TusService → TusService
resend zero id offset bytes s = s
resend (suc n) id offset bytes s =
    resend n id offset bytes (patch_upload no_faults id offset bytes s).1

abbrev pub copies : ℕ → Bytes → Bytes
copies zero bytes = []
copies (suc n) bytes = bytes ++ copies n bytes

patch_upload-written :
    (id : Text) (bytes content : Bytes) (row : Row) (s : TusService)
    → get id s.uploads ≡ some row
    → get id s.files ≡ some content
    → row.upload_offset + length bytes ≤ row.upload_length
    → patch_upload no_faults id row.upload_offset bytes s ≡ (
      err (database "Execute failed: {}"),
      record s { files = insert id (content ++ bytes) s.files },
    )
unfolding patch_upload append_and_record
patch_upload-written id bytes content row s found there h =
    rw (found, patch_upload) (rw (is_same, fits) (rw (there, append_and_record) refl))
  where
    is_same : (row.upload_offset == row.upload_offset) ≡ true
    is_same = ground arith

    fits : ltb row.upload_length (row.upload_offset + length bytes) ≡ false
    fits = ground arith

resend-written :
    (n : ℕ) (id : Text) (bytes content : Bytes) (row : Row) (s : TusService)
    → get id s.uploads ≡ some row
    → get id s.files ≡ some content
    → row.upload_offset + length bytes ≤ row.upload_length
    → (get id (resend n id row.upload_offset bytes s).uploads ≡ some row)
      × (get id (resend n id row.upload_offset bytes s).files ≡ some (content ++ copies n bytes))
unfolding resend
resend-written zero id bytes content row s found there h =
    (found, there ∙ ap some (sym (append-nil content)))
resend-written (suc n) id bytes content row s found there h =
    let s' : TusService = record s { files = insert id (content ++ bytes) s.files } in
    let (row_kept, grown) =
      resend-written n id bytes (content ++ bytes) row s' found
        (get-insert_self id (content ++ bytes) s.files) h in
    let next = ap (λ a. a.1) (patch_upload-written id bytes content row s found there h) in
    (
      ap (λ t. get id (resend n id row.upload_offset bytes t).uploads) next ∙ row_kept,
      ap (λ t. get id (resend n id row.upload_offset bytes t).files) next
          ∙ grown
          ∙ ap some (append_assoc content bytes (copies n bytes)),
    )

-- A patch at the row's offset fits in the declared length, the file is there, and nothing of the disk fails: however
-- often a client sends it, the next try is answered with an error of the database, the row is as it was, and
-- the file has grown by a copy of the bytes for each try.
pub patch_upload-resend :
    (n : ℕ) (id : Text) (bytes content : Bytes) (row : Row) (s : TusService)
    → get id s.uploads ≡ some row
    → get id s.files ≡ some content
    → row.upload_offset + length bytes ≤ row.upload_length
    → ((patch_upload no_faults id row.upload_offset bytes (resend n id row.upload_offset bytes s)).0
        ≡ err (database "Execute failed: {}"))
      × (get id (resend n id row.upload_offset bytes s).uploads ≡ some row)
      × (get id (resend n id row.upload_offset bytes s).files ≡ some (content ++ copies n bytes))
patch_upload-resend n id bytes content row s found there h =
    let (row_kept, grown) = resend-written n id bytes content row s found there h in
    (
      ap (λ a. a.0)
          (patch_upload-written id bytes (content ++ copies n bytes) row
            (resend n id row.upload_offset bytes s) row_kept grown h),
      row_kept,
      grown,
    )
