-- ===== src/Wal/Head.antt =====
-- `AtomicWalOffset` of src/infrastructure/wal/writer.rs, a seqlock: one writer stores, a reader loads,
-- and their accesses to the three atomics interleave, one at a time and each seen by all at once.
pub mod Coherent
use ingestion_service.Common.{ℕ, ◌+◌, ◌%◌, ◌^◌, ◌≡◌, Bool, ◌==◌, if◌then◌else◌}
use ingestion_service.Wal.Types.{WalOffset}

-- Between the accesses of `store(offset)`.
pub data WriterAt : Type 0 where
  idle : WriterAt
  begun half both : WalOffset → WriterAt

-- Between the accesses of `load`: before the first, and what was read so far.
pub data ReaderAt : Type 0 where
  start : ReaderAt
  even : ℕ → ReaderAt
  with_segment : ℕ → ℕ → ReaderAt
  with_both : ℕ → ℕ → ℕ → ReaderAt
  returned : WalOffset → ReaderAt

-- The atomics; where the two threads are; and, for the statements alone, the offset that was stored
-- last and how many stores are complete.
pub record Head : Type 0 where
  pub version : ℕ  -- u64
  pub segment_id : ℕ
  pub byte_offset : ℕ
  pub writer : WriterAt
  pub reader : ReaderAt
  pub latest : WalOffset
  pub stores : ℕ

unfoldable pub new : WalOffset → Head
new offset = record {
  version = 0;
  segment_id = offset.segment_id;
  byte_offset = offset.byte_offset;
  writer = idle;
  reader = start;
  latest = offset;
  stores = 0;
}

-- `fetch_add(1)`, which wraps.
abbrev pub fetch_add : ℕ → ℕ
fetch_add v = (v + 1) % 2 ^ 64

-- The tests of `load`.
unfoldable pub check_start : ℕ → ReaderAt
check_start v = if v % 2 == 1 then start else even v

unfoldable pub check_end : ℕ → ℕ → ℕ → ℕ → ReaderAt
check_end v segment_id byte_offset now =
    if v == now
    then returned (record { segment_id = segment_id; byte_offset = byte_offset })
    else start

-- One access of one of the threads, and the start of another `load`.
pub data Step : Head → Head → Type 0 where
  store_begin :
      (s : Head) (o : WalOffset)
      → s.writer ≡ idle
      → Step s (record s { version = fetch_add s.version; writer = begun o })
  store_segment :
      (s : Head) (o : WalOffset)
      → s.writer ≡ begun o
      → Step s (record s { segment_id = o.segment_id; writer = half o })
  store_byte :
      (s : Head) (o : WalOffset)
      → s.writer ≡ half o
      → Step s (record s { byte_offset = o.byte_offset; writer = both o })
  store_end :
      (s : Head) (o : WalOffset)
      → s.writer ≡ both o
      → Step s (record s {
        version = fetch_add s.version;
        writer = idle;
        latest = o;
        stores = s.stores + 1;
      })
  load_start : (s : Head) → s.reader ≡ start → Step s (record s { reader = check_start s.version })
  load_segment :
      (s : Head) (v : ℕ)
      → s.reader ≡ even v
      → Step s (record s { reader = with_segment v s.segment_id })
  load_byte :
      (s : Head) (v a : ℕ)
      → s.reader ≡ with_segment v a
      → Step s (record s { reader = with_both v a s.byte_offset })
  load_end :
      (s : Head) (v a b : ℕ)
      → s.reader ≡ with_both v a b
      → Step s (record s { reader = check_end v a b s.version })
  load_again :
      (s : Head) (o : WalOffset) → s.reader ≡ returned o → Step s (record s { reader = start })

pub data Reach (s : Head) : Head → Type 0 where
  here : Reach s s
  next : {t u : Head} → Reach s t → Step t u → Reach s u
