-- ===== src/Wal/Codec/RoundTrip.antt =====
-- Reading back what wal/codec.rs has written: whole, cut short, and too long.
use ingestion_service.Common.{
  ℕ, ◌+◌, ◌^◌, ◌≤◌, ◌<◌, ◌≡◌, sym, ap, ◌∙◌, none, some, List, [], ◌∷◌, ◌++◌, ok, err, length, arith,
}
use ingestion_service.Wal.Types.{WalEvent, exceeds_max}
use ingestion_service.Wal.Codec.{
  max_wal_record_payload_bytes, Bincode, Ending, at_eof, encode_into, decode_payload, decode_into,
  recover_payload, decode_for_recovery, valid_record, clean_eof,
}
use ingestion_service.Wal.Codec.Frames.{
  frame, length-frame, reader, encode_into-eq-frame, encode_into-frame, IsPayload,
  decode_into-frame, decode_for_recovery-frame, decode_into-oversized,
  decode_for_recovery-oversized, decode_into-cut, decode_for_recovery-cut,
}

-- A record that `encode_into` made, of a payload of 1 MiB at most, is read back as its event and
-- its width, by the reader and by recovery, and what follows it is left to be read.
pub decode-encode :
    (bc : Bincode) (event : WalEvent) (b more : List ℕ) (e : Ending)
    → encode_into bc event ≡ ok b
    → length b ≤ 4 + max_wal_record_payload_bytes
    → (decode_into bc (reader (b ++ more) e) ≡ (ok (some (event, length b)), reader more e))
      × (decode_for_recovery bc (reader (b ++ more) e)
          ≡ (ok (valid_record event (length b)), reader more e))
unfolding decode_payload recover_payload
decode-encode bc event b more e h small =
    let (p, written, eq, fits) = encode_into-eq-frame bc event b h in
    let back = bc.round_trip event p written in
    let is_payload : IsPayload p = omega (arith, ap length eq, length-frame p) in
    (
      rw (eq, decode_into-frame bc p more e is_payload, length-frame p, back, decode_payload),
      rw (
        eq,
        decode_for_recovery-frame bc p more e is_payload,
        length-frame p,
        back,
        recover_payload,
      ),
    )

-- Cut anywhere before its end, such a record is the end of the log, for the reader and for
-- recovery; nothing of the cut record is left to be read.
pub decode_cut :
    (bc : Bincode) (event : WalEvent) (b front back : List ℕ) (x : ℕ)
    → encode_into bc event ≡ ok b
    → length b ≤ 4 + max_wal_record_payload_bytes
    → b ≡ front ++ (x ∷ back)
    → (decode_into bc (reader front at_eof) ≡ (ok none, reader [] at_eof))
      × (decode_for_recovery bc (reader front at_eof) ≡ (ok clean_eof, reader [] at_eof))
decode_cut bc event b front back x h small split =
    let (p, written, eq, fits) = encode_into-eq-frame bc event b h in
    let is_payload : IsPayload p = omega (arith, ap length eq, length-frame p) in
    let whole = sym eq ∙ split in
    (
      decode_into-cut bc p front back x is_payload whole,
      decode_for_recovery-cut bc p front back x is_payload whole,
    )

-- `encode_into` accepts an event whose payload is longer than 1 MiB (up to 4 GiB), and what it
-- writes is refused by `decode_into` and taken for the end of the log by recovery.
pub encode_oversized :
    (bc : Bincode) (event : WalEvent) (p more : List ℕ) (e : Ending)
    → bc.write_event event ≡ some p
    → max_wal_record_payload_bytes < length p
    → length p < 2 ^ 32
    → (encode_into bc event ≡ ok (frame p))
      × (decode_into bc (reader (frame p ++ more) e)
          ≡ (err (exceeds_max (length p)), reader (p ++ more) e))
      × (decode_for_recovery bc (reader (frame p ++ more) e) ≡ (ok clean_eof, reader (p ++ more) e))
encode_oversized bc event p more e written long fits = (
  encode_into-frame bc event p written fits,
  decode_into-oversized bc p more e long fits,
  decode_for_recovery-oversized bc p more e long fits,
)
