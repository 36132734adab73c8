-- ===== src/Wal/Tests/Delivery.antt =====
-- The properties of the subscription and the forwarder on concrete data.
use ingestion_service.Common.{
  ℕ, ◌≡◌, refl, sym, append-nil, inl, inr, ◌++◌, Option, true, false, none, some, List, [], ◌∷◌,
  arith,
}
use ingestion_service.Wal.Types.{WalOffset, WalEvent, WalEntry, to_bytes}
use ingestion_service.Wal.Codec.{at_eof, decode_into}
use ingestion_service.Wal.Bytes.{to_le_bytes}
use ingestion_service.Wal.Codec.Frames.{frame}
use ingestion_service.Wal.Cursor.{WriteFault}
use ingestion_service.Wal.Subscription.{Subscription, Round, opened, entry, parked, act, next_round}
use ingestion_service.Wal.Subscription.Progress.{Fits, next_round-Fits, next_round-delivers}
use ingestion_service.Wal.Subscription.Torn.{found_in, next_round-torn}
use ingestion_service.Wal.Subscription.Commit.{
  Dir, CommitFaults, commit, Committed, commit-Committed, commit-keeps,
}
use ingestion_service.Wal.Forwarder.{
  written, retryable, permanent, World, flush, Input, tick, arrived, closed, run_forwarder,
}
use ingestion_service.Wal.Forwarder.Order.{InOrder, run_forwarder-InOrder}
use ingestion_service.Wal.Forwarder.Delivery.{writes, commits_tried, flush-returns}
use ingestion_service.Wal.Tests.{plain, plain_event, offset_at}

-- A segment of one record, published, at whose start the subscription stands.
abbrev two : List ℕ
two = 65 ∷ 66 ∷ []

abbrev round_of : List ℕ → WalOffset → Round
round_of bytes head = record {
  opening = opened;
  seeks = true;
  bytes = bytes;
  ending = at_eof;
  reopens = true;
  reopened_bytes = bytes;
  corrupt_head = head;
  head = head;
  final_head = head;
  writer_gone = false;
}

abbrev at_start : Subscription
at_start = record { segment_id = 1; byte_offset = 0; reader = none; last_gc_segment_id = 0 }

abbrev one_record : Round
one_record = round_of (frame two) (offset_at 1 6)

next_round-Fits_example : Fits at_start one_record (next_round plain one_record at_start)
next_round-Fits_example = next_round-Fits plain one_record at_start

next_round-delivers_example : next_round plain one_record at_start ≡ (
  entry (record { offset = offset_at 1 0; offset_after = offset_at 1 6; event = plain_event two }),
  record { segment_id = 1; byte_offset = 6; reader = some 6; last_gc_segment_id = 0 },
)
next_round-delivers_example =
    next_round-delivers plain one_record at_start (plain_event two) two [] (inl refl) refl refl
      (sym (append-nil (frame two))) (omega arith) refl

-- A record without its last byte, and a writer that has published nothing.
abbrev behind_one : Subscription
behind_one = record { segment_id = 1; byte_offset = 0; reader = some 0; last_gc_segment_id = 0 }

abbrev torn_round : Round
torn_round = round_of (2 ∷ 0 ∷ 0 ∷ 0 ∷ 65 ∷ []) (offset_at 1 0)

-- A descriptor one byte in front of the end of the record.
abbrev parked_inside : Subscription
parked_inside = record { segment_id = 1; byte_offset = 0; reader = some 5; last_gc_segment_id = 0 }

-- The rest of the record, and another behind it.
abbrev grown_round : Round
grown_round = round_of (frame two ++ frame two) (offset_at 1 12)

next_round-torn_example :
    (next_round plain torn_round behind_one ≡ (parked, parked_inside))
    × (r : Option ℕ) × (next_round plain grown_round parked_inside
        ≡ act grown_round
            (found_in (decode_into plain (record { rest = 66 ∷ frame two; ending = at_eof })).0)
            (record behind_one { reader = r }))
unfolding frame to_le_bytes
next_round-torn_example =
    next_round-torn plain torn_round grown_round behind_one two (2 ∷ 0 ∷ 0 ∷ 0 ∷ 65 ∷ []) []
      (66 ∷ frame two) 66 (inr refl) refl refl refl refl (omega arith) refl
      (inr (refl, omega arith)) refl refl

-- Segments 1 to 3, a commit in the third, and a listing that fails.
abbrev three_segments : Dir
three_segments = record {
  cursor = record { final = some (to_bytes (offset_at 1 6)); tmp = none };
  present = λ j. true;
}

abbrev listing_fails : CommitFaults
listing_fails = record { writing = WriteFault.no_fault; listing = none; removable = λ j. true }

commit-Committed_example :
    Committed listing_fails
      (offset_at 3 8)
      at_start
      three_segments
      (commit listing_fails (offset_at 3 8) at_start three_segments)
commit-Committed_example = commit-Committed listing_fails (offset_at 3 8) at_start three_segments

commit-keeps_example :
    (commit listing_fails (offset_at 3 8) at_start three_segments).2.present 3 ≡ true
commit-keeps_example =
    commit-keeps listing_fails (offset_at 3 8) at_start three_segments 3 (omega arith)

abbrev entry_at : ℕ → ℕ → List ℕ → WalEntry
entry_at from to payload = record {
  offset = offset_at 1 from;
  offset_after = offset_at 1 to;
  event = plain_event payload;
}

abbrev first : WalEntry
first = entry_at 0 6 (65 ∷ 66 ∷ [])

abbrev second : WalEntry
second = entry_at 6 11 (67 ∷ [])

-- The sink fails twice, and one commit fails.
abbrev outage : World
outage = record {
  responses = retryable ∷ permanent ∷ written ∷ written ∷ [];
  commits = false ∷ true ∷ true ∷ [];
}

abbrev inputs : List Input
inputs = tick ∷ arrived first ∷ tick ∷ arrived second ∷ closed ∷ []

run_forwarder-InOrder_example :
    InOrder (first ∷ second ∷ []) none none (run_forwarder 10 500 [] outage inputs).0
run_forwarder-InOrder_example = run_forwarder-InOrder 10 500 [] none outage inputs

abbrev both : List WalEvent
both = first.event ∷ second.event ∷ []

flush-returns_example :
    ((flush 500 first (second ∷ []) outage).1
      ≡ some (record { responses = written ∷ []; commits = true ∷ [] }))
    × (writes (flush 500 first (second ∷ []) outage).0
        ≡ (both, retryable) ∷ (both, permanent) ∷ (both, written) ∷ [])
    × (commits_tried (flush 500 first (second ∷ []) outage).0
        ≡ (offset_at 1 11, false) ∷ (offset_at 1 11, true) ∷ [])
flush-returns_example =
    flush-returns 500 first (second ∷ []) (retryable ∷ permanent ∷ []) (written ∷ []) (false ∷ [])
      (true ∷ []) (tt, (tt, tt)) (refl, tt)
