-- ===== src/Wal/Subscription/Torn.antt =====
-- What the subscription makes of a file that ends inside a record.
use ingestion_service.Common.{
  ℕ, ◌+◌, ◌≡◌, refl, sym, ap, ◌∙◌, Option, none, some, inl, inr, true, false, List, [], ◌∷◌, ◌++◌,
  Result, ok, err, Result-cases, length, drop, arith, drop-drop, drop-append_length,
}
use ingestion_service.Wal.Types.Order.{AtMost}
use ingestion_service.Wal.Types.{WalEvent, WalError}
use ingestion_service.Wal.Codec.{Bincode, Reader, at_eof, decode_into}
use ingestion_service.Wal.Codec.Frames.{frame, IsPayload, decode_into-cut}
use ingestion_service.Wal.Subscription.{
  Subscription, Round, ReadOutcome, record_read, eof, corrupt, parked, read_at, open_at, read_one,
  wait_or_advance, offset_of, act, next_round, opened,
}
use ingestion_service.Wal.Subscription.Progress.{IsAligned}

-- What a round takes an answer of `decode_into` for.
abbrev pub found_in : Result WalError (Option (WalEvent × ℕ)) → ReadOutcome
found_in (ok (some (event, n))) = record_read event n
found_in (ok none) = eof
found_in (err e) = corrupt e

-- A round with an open descriptor decodes what stands behind that.
next_round-decodes :
    (bc : Bincode) (x : Round) (s : Subscription) (p : ℕ) (more : List ℕ)
    → s.reader ≡ some p
    → drop p x.bytes ≡ more
    → next_round bc x s
      ≡ act x
          (found_in (decode_into bc (record { rest = more; ending = x.ending })).0)
          (record s { reader = (read_at bc x p).1 })
unfolding next_round read_one read_at
next_round-decodes bc x s p more open_ at =
    let reading : Reader = record { rest = drop p x.bytes; ending = x.ending } in
    let same : (decode_into bc reading).0
        ≡ (decode_into bc (record { rest = more; ending = x.ending })).0 =
      ap (λ (l : List ℕ). (decode_into bc (record { rest = l; ending = x.ending })).0) at in
    elim (Result-cases (decode_into bc reading).0) [
      | inr (e, q) ↦ ground (arith, open_, q, sym same)
      | inl (none, q) ↦ ground (arith, open_, q, sym same)
      | inl (some (event, n), q) ↦ ground (arith, open_, q, sym same)
    ]

-- Where the file of an aligned subscription opens and ends inside a record of at most 1 MiB, at any of
-- its bytes, and the writer lives but has published nothing behind the position, the round parks at
-- that position, but with a descriptor that is behind the part of the record that was there. When more
-- has been appended, the next round decodes what was appended, in place of the record that starts at
-- its position.
pub next_round-torn :
    (bc : Bincode) (x x' : Round) (s : Subscription) (p front back more : List ℕ) (c : ℕ)
    → IsAligned s
    → x.opening ≡ opened
    → x.seeks ≡ true
    → drop s.byte_offset x.bytes ≡ front
    → frame p ≡ front ++ (c ∷ back)
    → IsPayload p
    → x.ending ≡ at_eof
    → AtMost x.head (offset_of s)
    → x.writer_gone ≡ false
    → drop s.byte_offset x'.bytes ≡ front ++ more
    → let parked_at = record s { reader = some (s.byte_offset + length front) } in
      (next_round bc x s ≡ (parked, parked_at))
      × (r : Option ℕ) × (next_round bc x' parked_at
          ≡ act x'
              (found_in (decode_into bc (record { rest = more; ending = x'.ending })).0)
              (record s { reader = r }))
unfolding next_round read_one open_at read_at act wait_or_advance
next_round-torn bc x x' s p front back more c aligned o k d split fits e pos alive grown =
    let n : decode_into bc (record { rest = drop s.byte_offset x.bytes; ending = x.ending })
        ≡ (ok none, record { rest = []; ending = at_eof }) =
      rw (e, d) (decode_into-cut bc p front back c fits split) in
    let width : length (drop s.byte_offset x.bytes) ≡ length front = ap length d in
    (
      ground (arith, n, width, aligned, o, k, pos, alive),
      _,
      next_round-decodes bc x' (record s { reader = some (s.byte_offset + length front) })
          (s.byte_offset + length front) more refl
          (drop-drop s.byte_offset (length front) x'.bytes
            ∙ ap (drop (length front)) grown
            ∙ drop-append_length front more),
    )
