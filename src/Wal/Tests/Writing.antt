-- ===== src/Wal/Tests/Writing.antt =====
-- The properties of the writer on a run of two requests.
use ingestion_service.Common.{
  ◌≡◌, ℕ, refl, inr, true, false, Option, none, some, List, [], ◌∷◌, arith, ◌==◌, if◌then◌else◌,
}
use ingestion_service.Wal.Bytes.{to_le_bytes}
use ingestion_service.Wal.Codec.{encode_into}
use ingestion_service.Wal.Writer.{Writer}
use ingestion_service.Wal.Writer.BufWriter.{flush, append, write_all, make_room, write_cold}
use ingestion_service.Wal.Writer.Settled.{writer_loop-pending}
use ingestion_service.Wal.Writer.Turn.{
  Pass, Received, request, timeout, disconnected, pass, stopped, flush_if_due, receive,
  handle_encoded, rotate, needs_rotation, then_write, write_record, next_segment, publish, push_ack,
  store_head, notify_waiters, acknowledge_pending_durable_ok,
}
use ingestion_service.Wal.Writer.Loop.{writer_loop}
use ingestion_service.Wal.Writer.Consistency.{IsConsistent}
use ingestion_service.Wal.Writer.Steps.{Names, IsGood, IsHonest}
use ingestion_service.Wal.Writer.Durable.{pass-IsGood, writer_loop-IsHonest}
use ingestion_service.Wal.Tests.{plain, plain_event, offset_at}

abbrev calm : ℕ → Received → Pass
calm now received = record {
  now = now;
  later = now;
  received = received;
  periodic_flush = none;
  rotation_flush = none;
  opens = true;
  write_flush = none;
  write_direct = none;
  drop_flush = none;
}

-- The first segment, empty, of at most ten bytes.
abbrev empty_disk : ℕ → Option (List ℕ)
empty_disk j = if 1 == j then some [] else none

abbrev new_writer : Writer
new_writer = record {
  segment_id = 1;
  byte_offset = 0;
  segment_bytes = 10;
  buffer = [];
  disk = empty_disk;
  head = offset_at 1 0;
  notified = 0;
  pending = [];
  dirty = false;
  flush_deadline = 0;
  sent = [];
}

abbrev two_frame : ℕ → List ℕ
two_frame a = 2 ∷ 0 ∷ 0 ∷ 0 ∷ 65 ∷ 66 ∷ []

-- The request that waits under the ack 7.
abbrev ask : Received
ask = request (record { event = plain_event (65 ∷ 66 ∷ []); durable_ack = some 7 })

ask-Names : Names two_frame plain ask
unfolding encode_into to_le_bytes
ask-Names a b h e = cc

new_writer-IsConsistent : IsConsistent two_frame new_writer []
new_writer-IsConsistent = record {
  file = refl;
  counted = refl;
  fresh = λ i h. ground arith;
  published = inr (refl, omega arith);
  clean = λ h. (refl, refl);
  waiting = tt;
  answered = tt;
}

pass-IsGood_example : IsGood two_frame (pass plain (calm 3 ask) new_writer)
pass-IsGood_example =
    pass-IsGood two_frame plain (calm 3 ask) new_writer [] ask-Names new_writer-IsConsistent

-- Two requests, of which the second needs a new segment, a flush that is due, and the end.
abbrev passes : List Pass
passes = calm 3 ask ∷ calm 4 ask ∷ calm 20 timeout ∷ calm 21 disconnected ∷ []

writer_loop-IsHonest_example : IsHonest two_frame (writer_loop plain none none passes new_writer).1
writer_loop-IsHonest_example =
    writer_loop-IsHonest two_frame plain none none passes new_writer []
      (ask-Names, (ask-Names, (tt, (tt, tt)))) new_writer-IsConsistent

passes_end : (writer_loop plain none none passes new_writer).0 ≡ stopped
unfolding writer_loop pass flush_if_due receive handle_encoded rotate needs_rotation then_write
    write_record next_segment publish push_ack encode_into to_le_bytes flush append write_all
    make_room write_cold store_head notify_waiters acknowledge_pending_durable_ok
passes_end = refl

writer_loop-pending_example : (writer_loop plain none none passes new_writer).1.pending ≡ []
writer_loop-pending_example =
    writer_loop-pending plain none none passes new_writer (λ h. cc (passes_end, h))
