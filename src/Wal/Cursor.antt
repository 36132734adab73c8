-- ===== src/Wal/Cursor.antt =====
-- src/infrastructure/wal/cursor.rs: the file that holds how far the log has been delivered.
use ingestion_service.Common.{
  ℕ, ◌≡◌, refl, ◌⊎◌, inl, inr, Option, none, some, List, length, take, Result, ok, err, ◌==◌,
  if◌then◌else◌,
}
use ingestion_service.Wal.Types.{
  WalOffset, IsU64Offset, WalError, io, cursor_length, to_bytes, from_bytes, from_bytes-to_bytes,
}

-- The two files of the directory that the cursor uses: `commit.cursor` and `commit.cursor.tmp`.
pub record CursorFiles : Type 0 where
  pub final : Option (List ℕ)
  pub tmp : Option (List ℕ)

-- How `read_cursor` finds the file after it has seen that it exists.
pub data OpenFault : Type 0 where
  no_fault vanished open_failed metadata_failed read_failed : OpenFault

-- The length of the open file decides; sixteen bytes are an offset.
unfoldable pub parse_cursor : List ℕ → Result WalError (Option WalOffset)
parse_cursor bytes =
    if length bytes == 0
    then ok none
    else if length bytes == 16
    then ok (some (from_bytes bytes))
    else err (cursor_length (length bytes))

unfoldable pub read_opened : OpenFault → List ℕ → Result WalError (Option WalOffset)
read_opened no_fault bytes = parse_cursor bytes
read_opened vanished bytes = ok none
read_opened open_failed bytes = err io
read_opened metadata_failed bytes = err io
read_opened read_failed bytes = elim (parse_cursor bytes) [
  | ok o ↦ elim o [ none ↦ ok none | some _ ↦ err io ]
  | err e ↦ err e
]

unfoldable pub read_cursor : OpenFault → CursorFiles → Result WalError (Option WalOffset)
read_cursor fault files = elim files.final [ none ↦ ok none | some bytes ↦ read_opened fault bytes ]

-- How far `write_cursor` gets: to the end, or to a call that fails or that a crash cuts, the write
-- after so many bytes.
pub data WriteFault : Type 0 where
  no_fault create_failed : WriteFault
  write_failed : ℕ → WriteFault
  rename_failed : WriteFault

unfoldable pub write_cursor :
    WriteFault → WalOffset → CursorFiles → Result WalError (Unit {0}) × CursorFiles
write_cursor no_fault offset files = (ok tt, record { final = some (to_bytes offset); tmp = none })
write_cursor create_failed offset files = (err io, files)
write_cursor (write_failed k) offset files =
    (err io, record files { tmp = some (take k (to_bytes offset)) })
write_cursor rename_failed offset files = (err io, record files { tmp = some (to_bytes offset) })

-- The cursor changes at once or not at all: a write that succeeds is read back, whatever was in the
-- two files, and one that fails at any point, leaving any part of the temporary file, leaves the
-- cursor that is read as it was.
pub read_cursor-write_cursor :
    (fault : WriteFault) (offset : WalOffset) (files : CursorFiles)
    → IsU64Offset offset
    → (((write_cursor fault offset files).0 ≡ ok tt)
        × (read_cursor no_fault (write_cursor fault offset files).1 ≡ ok (some offset)))
      ⊎ (((write_cursor fault offset files).0 ≡ err io)
          × ((x : OpenFault)
              → read_cursor x (write_cursor fault offset files).1 ≡ read_cursor x files))
unfolding write_cursor read_cursor read_opened parse_cursor
read_cursor-write_cursor no_fault offset files fits =
    let (back, width) = from_bytes-to_bytes offset fits in inl (refl, rw (width, back))
read_cursor-write_cursor create_failed offset files fits = inr (refl, λ x. refl)
read_cursor-write_cursor (write_failed k) offset files fits = inr (refl, λ x. refl)
read_cursor-write_cursor rename_failed offset files fits = inr (refl, λ x. refl)
