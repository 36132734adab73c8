-- ===== src/Wal/Subscription.antt =====
-- src/infrastructure/wal/subscription.rs: the reader that follows the writer through the segments.
pub mod Progress
pub mod Torn
pub mod Commit
use ingestion_service.Common.{
  ℕ, ◌+◌, ◌-◌, ◌*◌, ◌≤◌, Bool, true, false, not, ◌&&◌, Option, none, some, List, Result, ok, err,
  length, drop, take, ltb, leb, ◌==◌, if◌then◌else◌,
}
use ingestion_service.Wal.Bytes.{from_le_bytes}
use ingestion_service.Wal.Types.{WalOffset, WalEvent, WalEntry, WalError}
use ingestion_service.Wal.Codec.{Bincode, Reader, Ending, decode_into}

-- The fields that change. `reader` is the position of the open descriptor in the segment's file; the
-- scratch buffer of the payload has no content that is read.
pub record Subscription : Type 0 where
  pub segment_id : ℕ
  pub byte_offset : ℕ
  pub reader : Option ℕ
  pub last_gc_segment_id : ℕ

-- `saturating_sub(1)` is `- 1` on ℕ.
unfoldable pub new : WalOffset → Subscription
new start = record {
  segment_id = start.segment_id;
  byte_offset = start.byte_offset;
  reader = none;
  last_gc_segment_id = start.segment_id - 1;
}

pub data Opening : Type 0 where
  opened missing refused : Opening

-- What one round of `next` meets: whether the segment's file opens and seeks, its bytes, how they
-- end, whether it opens again for the length prefix and its bytes then, the loads of `head` in turn,
-- in the `Corrupt` arm and the two of `wait_or_advance`, and whether the writer is gone
-- (`Arc::strong_count(&self.notify) == 1`).
pub record Round : Type 0 where
  pub opening : Opening
  pub seeks : Bool
  pub bytes : List ℕ
  pub ending : Ending
  pub reopens : Bool
  pub reopened_bytes : List ℕ
  pub corrupt_head : WalOffset
  pub head : WalOffset
  pub final_head : WalOffset
  pub writer_gone : Bool

pub data ReadOutcome : Type 0 where
  record_read : WalEvent → ℕ → ReadOutcome
  not_found open_error seek_error eof : ReadOutcome
  corrupt : WalError → ReadOutcome

-- The end of `read_one`: one record at the descriptor's position. The position moves by what was
-- read, and the descriptor is dropped on an error.
unfoldable pub read_at : Bincode → Round → ℕ → ReadOutcome × Option ℕ
read_at bc x p =
    let (out, r) = decode_into bc (record { rest = drop p x.bytes; ending = x.ending }) in
    let p' = p + (length (drop p x.bytes) - length r.rest) in
    elim out [
      | ok found ↦ elim found [
        | some (event, n) ↦ (record_read event n, some p')
        | none ↦ (eof, some p')
      ]
      | err e ↦ (corrupt e, none)
    ]

-- `File::open` and the seek, which the start of a segment does not need.
unfoldable pub open_at : Bincode → Round → Opening → ℕ → ReadOutcome × Option ℕ
open_at bc x opened byte_offset =
    if ltb 0 byte_offset && not x.seeks then (seek_error, none) else read_at bc x byte_offset
open_at bc x missing byte_offset = (not_found, none)
open_at bc x refused byte_offset = (open_error, none)

unfoldable pub read_one : Bincode → Round → ℕ → Option ℕ → ReadOutcome × Option ℕ
read_one bc x byte_offset (some p) = read_at bc x p
read_one bc x byte_offset none = open_at bc x x.opening byte_offset

-- `read_len_prefix`, which opens the file anew.
unfoldable pub read_len_prefix : Round → ℕ → Option ℕ
read_len_prefix x byte_offset =
    if x.reopens && leb 4 (length (drop byte_offset x.reopened_bytes))
    then some (from_le_bytes (take 4 (drop byte_offset x.reopened_bytes)))
    else none

-- How a round ends: with an entry, with another round at once, with one after the next
-- notification, or with the end of the stream.
pub data Outcome : Type 0 where
  entry : WalEntry → Outcome
  again parked ended : Outcome

unfoldable pub next_segment : Subscription → Subscription
next_segment s = record s { segment_id = s.segment_id + 1; byte_offset = 0; reader = none }

-- `wait_or_advance` once the writer is gone.
unfoldable pub drain : WalOffset → Subscription → Outcome × Subscription
drain head s =
    if ltb s.segment_id head.segment_id
    then (again, next_segment s)
    else if ltb s.byte_offset head.byte_offset
    then (again, s)
    else (ended, s)

unfoldable pub wait_or_advance : Round → Subscription → Outcome × Subscription
wait_or_advance x s =
    if ltb s.segment_id x.head.segment_id
    then (again, next_segment s)
    else if (x.head.segment_id == s.segment_id) && ltb s.byte_offset x.head.byte_offset
    then (again, s)
    else if x.writer_gone
    then drain x.final_head s
    else (parked, s)

abbrev pub max_skip_bytes : ℕ
max_skip_bytes = 1024 * 1024

unfoldable pub skip_corrupt_record : Round → Subscription → Outcome × Subscription
skip_corrupt_record x s = elim (read_len_prefix x s.byte_offset) [
  | some len ↦
      if ltb max_skip_bytes len
      then wait_or_advance x s
      else (again, record s { byte_offset = s.byte_offset + (4 + len) })
  | none ↦ wait_or_advance x s
]

abbrev pub offset_of : Subscription → WalOffset
offset_of s = record { segment_id = s.segment_id; byte_offset = s.byte_offset }

-- The `match outcome` of `next`.
unfoldable pub act : Round → ReadOutcome → Subscription → Outcome × Subscription
act x (record_read event n) s =
    let s' = record s { byte_offset = s.byte_offset + n } in
    (entry (record { offset = offset_of s; offset_after = offset_of s'; event = event }), s')
act x (corrupt e) s =
    if (x.corrupt_head.segment_id == s.segment_id) && leb x.corrupt_head.byte_offset s.byte_offset
    then wait_or_advance x s
    else skip_corrupt_record x s
act x not_found s = wait_or_advance x s
act x open_error s = wait_or_advance x s
act x seek_error s = wait_or_advance x s
act x eof s = wait_or_advance x s

-- One round of the loop of `next`.
unfoldable pub next_round : Bincode → Round → Subscription → Outcome × Subscription
next_round bc x s =
    let (outcome, reader) = read_one bc x s.byte_offset s.reader in
    act x outcome (record s { reader = reader })
