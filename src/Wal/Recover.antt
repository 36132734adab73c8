-- ===== src/Wal/Recover.antt =====
-- src/infrastructure/wal/recover.rs: where the next append may go after a crash.
pub mod Scan
use ingestion_service.Common.{
  ℕ, zero, suc, ◌+◌, Option, none, some, List, [], Result, ok, err, length, take, Bool, true, false,
}
use ingestion_service.Wal.Types.{WalError, io, not_found}
use ingestion_service.Wal.Codec.{
  Bincode, Reader, Ending, DecodeOutcome, decode_for_recovery, valid_record, clean_eof,
  frame_corrupt,
}

-- What `OpenOptions::open` answers for a segment file: its bytes and how they end, no such file, or
-- another error.
pub data Opened : Type 0 where
  file : Reader → Opened
  missing refused : Opened

-- The `loop` of `last_valid_offset`. Each round that goes on takes four bytes at least, so more
-- rounds than there are bytes are enough; `none` is a loop that did not end.
unfoldable pub scan : Bincode → ℕ → ℕ → Reader → Option (Result WalError ℕ)
scan bc zero valid_len r = none
scan bc (suc fuel) valid_len r =
    let (outcome, r') = decode_for_recovery bc r in
    elim outcome [
      | ok d ↦ elim d [
        | valid_record event consumed ↦ scan bc fuel (valid_len + consumed) r'
        | clean_eof ↦ some (ok valid_len)
        | frame_corrupt consumed ↦ scan bc fuel (valid_len + consumed) r'
      ]
      | err e ↦ some (err e)
    ]

unfoldable pub last_valid_offset : Bincode → Opened → Option (Result WalError ℕ)
last_valid_offset bc (file r) = scan bc (suc (length r.rest)) 0 r
last_valid_offset bc missing = some (ok 0)
last_valid_offset bc refused = some (err io)

-- Whether the segment opened for writing and was resized; `set_len(len)` at no more than the file's
-- length keeps its first `len` bytes.
unfoldable pub truncate_to : Bool → Bool → ℕ → List ℕ → Result WalError (Unit {0}) × List ℕ
truncate_to false resized len bytes = (err io, bytes)
truncate_to true false len bytes = (err io, bytes)
truncate_to true true len bytes = (ok tt, take len bytes)
