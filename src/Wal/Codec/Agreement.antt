-- ===== src/Wal/Codec/Agreement.antt =====
-- `decode_into` and `decode_for_recovery` of wal/codec.rs on every input.
use ingestion_service.Common.{
  ℕ, ◌+◌, ◌≤◌, ◌≡◌, Option, List, none, some, Result, ok, err, length, take, drop, length-drop,
  arith,
}
use ingestion_service.Wal.Bytes.{from_le_bytes}
use ingestion_service.Wal.Types.{WalEvent, WalError, deserialize, exceeds_max}
use ingestion_service.Wal.Codec.{
  max_wal_record_payload_bytes, Bincode, Reader, DecodeOutcome, decode_into, decode_for_recovery,
  valid_record, clean_eof, frame_corrupt,
}

-- What recovery answers where the reader answers the first. A record is as wide as its prefix of four
-- bytes and the number of bytes that this says.
abbrev pub Agrees :
    List ℕ → Result WalError (Option (WalEvent × ℕ)) → Result WalError DecodeOutcome → Type 0
Agrees bytes (ok (some (event, n))) d =
    (n ≡ 4 + from_le_bytes (take 4 bytes)) × (d ≡ ok (valid_record event n))
Agrees bytes (ok none) d = d ≡ ok clean_eof
Agrees bytes (err deserialize) d = d ≡ ok (frame_corrupt (4 + from_le_bytes (take 4 bytes)))
Agrees bytes (err (exceeds_max n)) d = (n ≡ from_le_bytes (take 4 bytes)) × (d ≡ ok clean_eof)
Agrees bytes (err e) d = d ≡ err e

-- The bytes that a step of recovery takes, of `before`, to leave `after`.
abbrev pub Consumes : DecodeOutcome → ℕ → ℕ → Type 0
Consumes (valid_record event n) before after =
    (before ≡ n + after) × (4 ≤ n) × (n ≤ 4 + max_wal_record_payload_bytes)
Consumes (frame_corrupt n) before after =
    (before ≡ n + after) × (4 ≤ n) × (n ≤ 4 + max_wal_record_payload_bytes)
Consumes clean_eof before after = after ≤ before

-- On every input `decode_for_recovery` answers what `decode_into` answers, but that a record whose
-- payload does not deserialize is reported with its width and an oversized length is the end of the
-- log; and both leave the same bytes to be read. The width of a record, deserialized or not, is four
-- and the length that its first four bytes say.
pub decode-Agrees :
    (bc : Bincode) (r : Reader)
    → Agrees r.rest (decode_into bc r).0 (decode_for_recovery bc r).0
      × ((decode_into bc r).1 ≡ (decode_for_recovery bc r).1)
unfolding decode_into decode_for_recovery
decode-Agrees bc r = ground arith

-- What recovery steps over is what it says it steps over: four bytes and a payload of at most
-- 1 MiB, taken from the front of the input.
pub recovery-Consumes :
    (bc : Bincode) (r : Reader) (d : DecodeOutcome)
    → (decode_for_recovery bc r).0 ≡ ok d
    → Consumes d (length r.rest) (length (decode_for_recovery bc r).1.rest)
unfolding decode_for_recovery
recovery-Consumes bc r (valid_record event n) h =
    ground
      (arith, length-drop 4 r.rest, length-drop (from_le_bytes (take 4 r.rest)) (drop 4 r.rest))
recovery-Consumes bc r (frame_corrupt n) h =
    ground
      (arith, length-drop 4 r.rest, length-drop (from_le_bytes (take 4 r.rest)) (drop 4 r.rest))
recovery-Consumes bc r clean_eof h =
    ground
      (arith, length-drop 4 r.rest, length-drop (from_le_bytes (take 4 r.rest)) (drop 4 r.rest))
