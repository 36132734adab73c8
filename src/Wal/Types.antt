-- ===== src/Wal/Types.antt =====
-- src/infrastructure/wal/types.rs: offsets, events, entries and the errors of an append, with the
-- errors that the other files of the log return.
pub mod Order
use ingestion_service.Common.{ℕ, ◌+◌, ◌^◌, ◌<◌, ◌≡◌, refl, List, ◌++◌, take, drop, ℤ}
use ingestion_service.Common.{arith, length, length-append, take-append_length, drop-append_length}
use ingestion_service.Wal.Bytes.{to_be_bytes, from_be_bytes, length-to_be_bytes}
use ingestion_service.Wal.Bytes.{from_be_bytes-to_be_bytes}

pub record WalOffset : Type 0 where
  pub segment_id : ℕ  -- u64
  pub byte_offset : ℕ  -- u64

-- Both fields are `u64`.
pub record IsU64Offset (o : WalOffset) : Type 0 where
  pub segment_id_fits : o.segment_id < 2 ^ 64
  pub byte_offset_fits : o.byte_offset < 2 ^ 64

unfoldable pub to_bytes : WalOffset → List ℕ
to_bytes o = to_be_bytes 8 o.segment_id ++ to_be_bytes 8 o.byte_offset

unfoldable pub from_bytes : List ℕ → WalOffset
from_bytes buf = record {
  segment_id = from_be_bytes 0 (take 8 buf);
  byte_offset = from_be_bytes 0 (drop 8 buf);
}

-- Strings are the lists of their characters.
pub record WalEvent : Type 0 where
  pub topic : List ℕ
  pub ts_ms : ℤ
  pub payload : List ℕ

pub record WalEntry : Type 0 where
  pub offset : WalOffset
  pub offset_after : WalOffset
  pub event : WalEvent

pub record WalOptions : Type 0 where
  pub segment_bytes : ℕ  -- u64
  pub queue_capacity : ℕ  -- usize

pub data TryAppendError : Type 0 where
  full closed : WalEvent → TryAppendError

-- Why an append was answered with an error: the texts of writer.rs and wal.rs.
pub data AckError : Type 0 where
  encode_failed : AckError
  flush_before_rotation : AckError
  open_next_segment : AckError
  write_all : AckError
  final_flush : AckError
  exited_before_ack : AckError

pub data AppendDurableError : Type 0 where
  full closed : WalEvent → AppendDurableError
  durability : AckError → AppendDurableError

-- The errors of the files that read and write the log: `std::io::Error` by the kinds that the code
-- tells apart, and the `anyhow` errors that it makes.
pub data WalError : Type 0 where
  not_found : WalError
  unexpected_eof : WalError
  io : WalError
  serialize : WalError
  deserialize : WalError
  exceeds_u32 : ℕ → WalError
  exceeds_max : ℕ → WalError
  cursor_length : ℕ → WalError
  cursor_outside : WalOffset → WalError

pub length-to_bytes : (o : WalOffset) → length (to_bytes o) ≡ 16
unfolding to_bytes
length-to_bytes o = omega (
  arith,
  length-append (to_be_bytes 8 o.segment_id) (to_be_bytes 8 o.byte_offset),
  length-to_be_bytes 8 o.segment_id,
  length-to_be_bytes 8 o.byte_offset,
)

take_be : (v : ℕ) (rest : List ℕ) → take 8 (to_be_bytes 8 v ++ rest) ≡ to_be_bytes 8 v
unfolding to_be_bytes
take_be v rest = refl

drop_be : (v : ℕ) (rest : List ℕ) → drop 8 (to_be_bytes 8 v ++ rest) ≡ rest
unfolding to_be_bytes
drop_be v rest = refl

-- An offset whose two fields are 64-bit numbers is read back from the sixteen bytes that
-- `to_bytes` makes of it, and those are sixteen.
pub from_bytes-to_bytes :
    (o : WalOffset) → IsU64Offset o → (from_bytes (to_bytes o) ≡ o) × (length (to_bytes o) ≡ 16)
unfolding to_bytes from_bytes
from_bytes-to_bytes o fits = (
  rw (
    take_be o.segment_id (to_be_bytes 8 o.byte_offset),
    drop_be o.segment_id (to_be_bytes 8 o.byte_offset),
    from_be_bytes-to_be_bytes o.segment_id fits.segment_id_fits,
    from_be_bytes-to_be_bytes o.byte_offset fits.byte_offset_fits,
  ),
  length-to_bytes o,
)
