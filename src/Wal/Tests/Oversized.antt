-- ===== src/Wal/Tests/Oversized.antt =====
-- The properties of records of more than 1 MiB on concrete data.
use ingestion_service.Common.{◌≡◌, refl, true, false, none, [], ◌++◌, ok, err, length, arith}
use ingestion_service.Wal.Types.{exceeds_max}
use ingestion_service.Wal.Codec.{at_eof, encode_into, decode_into, decode_for_recovery, clean_eof}
use ingestion_service.Wal.Codec.Frames.{frame, reader}
use ingestion_service.Wal.Codec.RoundTrip.{encode_oversized}
use ingestion_service.Wal.Subscription.{Subscription, Round, opened, again, next_round}
use ingestion_service.Wal.Subscription.Progress.{next_round-stuck}
use ingestion_service.Wal.Tests.{plain, plain_event, offset_at, zeros, length-zeros}

encode_oversized_example :
    (encode_into plain (plain_event (zeros 2000000)) ≡ ok (frame (zeros 2000000)))
    × (decode_into plain (reader (frame (zeros 2000000) ++ []) at_eof)
        ≡ (err (exceeds_max (length (zeros 2000000))), reader (zeros 2000000 ++ []) at_eof))
    × (decode_for_recovery plain (reader (frame (zeros 2000000) ++ []) at_eof)
        ≡ (ok clean_eof, reader (zeros 2000000 ++ []) at_eof))
encode_oversized_example =
    encode_oversized plain (plain_event (zeros 2000000)) (zeros 2000000) [] at_eof refl
      (omega (arith, length-zeros 2000000)) (omega (arith, length-zeros 2000000))

abbrev start : Subscription
start = record { segment_id = 1; byte_offset = 0; reader = none; last_gc_segment_id = 0 }

abbrev big_round : Round
big_round = record {
  opening = opened;
  seeks = true;
  bytes = frame (zeros 2000000) ++ [];
  ending = at_eof;
  reopens = true;
  reopened_bytes = frame (zeros 2000000) ++ [];
  corrupt_head = offset_at 1 2000004;
  head = offset_at 1 2000004;
  final_head = offset_at 1 2000004;
  writer_gone = false;
}

next_round-stuck_example : next_round plain big_round start ≡ (again, start)
next_round-stuck_example =
    next_round-stuck plain big_round start (zeros 2000000) [] [] refl refl refl refl refl
      (omega (arith, length-zeros 2000000)) (omega (arith, length-zeros 2000000)) refl (omega arith)
