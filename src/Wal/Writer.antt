-- ===== src/Wal/Writer.antt =====
-- src/infrastructure/wal/writer.rs: the thread that appends records to segment files, publishes how
-- far the log is readable (`head`) and answers durable appends.
pub mod BufWriter
pub mod Turn
pub mod Loop
pub mod Moved
pub mod Stored
pub mod Consistency
pub mod Steps
pub mod Durable
pub mod Settled
use ingestion_service.Common.{ℕ, ◌+◌, Bool, Option, List}
use ingestion_service.Wal.Types.{WalOffset, WalEvent, AckError}

-- An ack is the name of the oneshot channel on which the append waits.
pub record WriteRequest : Type 0 where
  pub event : WalEvent
  pub durable_ack : Option ℕ

-- What was sent on an ack's channel.
pub data Answer : Type 0 where
  done : ℕ → Answer
  failed : ℕ → AckError → Answer

pub data WriterFatalReason : Type 0 where
  flush_before_rotation open_next_segment write_all : WriterFatalReason

-- Milliseconds.
abbrev pub flush_interval : ℕ
flush_interval = 5

-- The variables of `writer_loop`; the open `BufWriter`'s buffer; the segment files by their id (a
-- segment's file name determines it); and what others have seen: `head`, how often the waiters were
-- notified, and the answers.
pub record Writer : Type 0 where
  pub segment_id : ℕ
  pub byte_offset : ℕ
  pub segment_bytes : ℕ
  pub buffer : List ℕ
  pub disk : ℕ → Option (List ℕ)
  pub head : WalOffset
  pub notified : ℕ
  pub pending : List ℕ
  pub dirty : Bool
  pub flush_deadline : ℕ
  pub sent : List Answer

-- Where an operation on a file fails: after so many bytes. `none` is an operation that succeeds.
abbrev pub Fault : Type 0
Fault = Option ℕ
