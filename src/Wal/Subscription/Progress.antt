-- ===== src/Wal/Subscription/Progress.antt =====
-- How the subscription moves through the log.
use ingestion_service.Common.{
  ℕ, ◌+◌, ◌-◌, ◌≤◌, ◌<◌, ◌≡◌, refl, ◌⊎◌, inl, inr, true, false, none, some, List, ok, err, length,
  drop, take, ltb, leb, ◌==◌, arith, Option-cases, Bool-cases, ◌++◌, ◌&&◌, sym, subst,
  take-append_length, ap, length-append, ◌^◌,
}
use ingestion_service.Wal.Types.Order.{AtMost}
use ingestion_service.Wal.Bytes.{
  from_le_bytes, to_le_bytes, length-to_le_bytes, from_le_bytes-to_le_bytes,
}
use ingestion_service.Wal.Types.{WalEvent, WalError, exceeds_max}
use ingestion_service.Wal.Codec.{Bincode, decode_into, max_wal_record_payload_bytes, decode_payload}
use ingestion_service.Wal.Codec.Frames.{
  frame, length-frame, IsPayload, decode_into-frame, decode_into-oversized, frame-append,
}
use ingestion_service.Wal.Subscription.{
  Subscription, Round, ReadOutcome, record_read, not_found, open_error, seek_error, eof, corrupt,
  Outcome, entry, again, parked, ended, read_at, open_at, read_one, read_len_prefix, next_segment,
  drain, wait_or_advance, skip_corrupt_record, offset_of, act, next_round, max_skip_bytes, opened,
}

-- What the outcome says of the positions before and after.
abbrev pub Fits : Subscription → Round → Outcome × Subscription → Type 0
Fits s x (entry e, s') =
    (e.offset ≡ offset_of s)
    × (e.offset_after ≡ offset_of s')
    × (s'.segment_id ≡ s.segment_id)
    × (s.byte_offset ≤ s'.byte_offset)
Fits s x (again, s') = AtMost (offset_of s) (offset_of s')
Fits s x (parked, s') = (offset_of s' ≡ offset_of s) × (x.writer_gone ≡ false)
Fits s x (ended, s') =
    (offset_of s' ≡ offset_of s) × (x.writer_gone ≡ true) × AtMost x.final_head (offset_of s)

wait_or_advance-Fits : (x : Round) (s : Subscription) → Fits s x (wait_or_advance x s)
unfolding wait_or_advance drain next_segment
wait_or_advance-Fits x s = ground arith

skip-waits :
    (x : Round) (s : Subscription)
    → read_len_prefix x s.byte_offset ≡ none
    → skip_corrupt_record x s ≡ wait_or_advance x s
unfolding skip_corrupt_record
skip-waits x s e = ground (arith, e)

skip-too_big :
    (x : Round) (s : Subscription) (len : ℕ)
    → read_len_prefix x s.byte_offset ≡ some len
    → ltb max_skip_bytes len ≡ true
    → skip_corrupt_record x s ≡ wait_or_advance x s
unfolding skip_corrupt_record
skip-too_big x s len e big = ground (arith, e, big)

skip-skips :
    (x : Round) (s : Subscription) (len : ℕ)
    → read_len_prefix x s.byte_offset ≡ some len
    → ltb max_skip_bytes len ≡ false
    → skip_corrupt_record x s ≡ (again, record s { byte_offset = s.byte_offset + (4 + len) })
unfolding skip_corrupt_record
skip-skips x s len e small = ground (arith, e, small)

skip_corrupt_record-Fits : (x : Round) (s : Subscription) → Fits s x (skip_corrupt_record x s)
skip_corrupt_record-Fits x s = elim (Option-cases (read_len_prefix x s.byte_offset)) [
  | inl e ↦ subst (λ y. Fits s x y) (sym (skip-waits x s e)) (wait_or_advance-Fits x s)
  | inr (len, e) ↦ elim (Bool-cases (ltb max_skip_bytes len)) [
    | inl big ↦
        subst (λ y. Fits s x y) (sym (skip-too_big x s len e big)) (wait_or_advance-Fits x s)
    | inr small ↦
        subst (λ y. Fits s x y) (sym (skip-skips x s len e small)) (inr (refl, omega arith))
  ]
]

corrupt-waits :
    (x : Round) (e : WalError) (s : Subscription)
    → ((x.corrupt_head.segment_id == s.segment_id) && leb x.corrupt_head.byte_offset s.byte_offset)
      ≡ true
    → act x (corrupt e) s ≡ wait_or_advance x s
unfolding act
corrupt-waits x e s t = rw t

corrupt-skips :
    (x : Round) (e : WalError) (s : Subscription)
    → ((x.corrupt_head.segment_id == s.segment_id) && leb x.corrupt_head.byte_offset s.byte_offset)
      ≡ false
    → act x (corrupt e) s ≡ skip_corrupt_record x s
unfolding act
corrupt-skips x e s t = rw t

act-Fits : (x : Round) (o : ReadOutcome) (s : Subscription) → Fits s x (act x o s)
unfolding act
act-Fits x (record_read event n) s = (refl, refl, refl, omega arith)
act-Fits x (corrupt e) s =
    elim (Bool-cases (
      (x.corrupt_head.segment_id == s.segment_id)
      && leb x.corrupt_head.byte_offset s.byte_offset)) [
        | inl t ↦ subst (λ y. Fits s x y) (sym (corrupt-waits x e s t)) (wait_or_advance-Fits x s)
        | inr t ↦
            subst (λ y. Fits s x y) (sym (corrupt-skips x e s t)) (skip_corrupt_record-Fits x s)
      ]
act-Fits x not_found s = wait_or_advance-Fits x s
act-Fits x open_error s = wait_or_advance-Fits x s
act-Fits x seek_error s = wait_or_advance-Fits x s
act-Fits x eof s = wait_or_advance-Fits x s

-- No round moves the subscription back. An entry says where its record starts and ends, and those
-- are the positions before and behind the round; a round that waits does not move, and does so only
-- while the writer lives; and the stream ends only when the writer is gone and the position is at
-- or behind the writer's last offset.
pub next_round-Fits : (bc : Bincode) (x : Round) (s : Subscription) → Fits s x (next_round bc x s)
unfolding next_round
next_round-Fits bc x s =
    let out = read_one bc x s.byte_offset s.reader in act-Fits x out.0 (record s { reader = out.1 })

-- The open descriptor, if there is one, stands at the position of the subscription.
abbrev pub IsAligned : Subscription → Type 0
IsAligned s = (s.reader ≡ none) ⊎ (s.reader ≡ some s.byte_offset)

read_at-frame :
    (bc : Bincode) (x : Round) (o : ℕ) (event : WalEvent) (p more : List ℕ)
    → drop o x.bytes ≡ frame p ++ more
    → IsPayload p
    → bc.read_event p ≡ some event
    → read_at bc x o ≡ (record_read event (4 + length p), some (o + (4 + length p)))
unfolding read_at decode_payload
read_at-frame bc x o event p more at fits back =
    let d : decode_into bc (record { rest = drop o x.bytes; ending = x.ending })
        ≡ (ok (some (event, 4 + length p)), record { rest = more; ending = x.ending }) =
      rw (at, decode_into-frame bc p more x.ending fits, back, decode_payload) in
    let width : length (drop o x.bytes) - length more ≡ 4 + length p =
      omega (arith, ap length at, length-append (frame p) more, length-frame p) in
    ground (arith, d, width)

-- A whole record with a payload of at most 1 MiB that stands at the position of an aligned
-- subscription is delivered, whatever the writer has published, and the subscription stands
-- aligned behind it.
pub next_round-delivers :
    (bc : Bincode) (x : Round) (s : Subscription) (event : WalEvent) (p more : List ℕ)
    → IsAligned s
    → x.opening ≡ opened
    → x.seeks ≡ true
    → drop s.byte_offset x.bytes ≡ frame p ++ more
    → IsPayload p
    → bc.read_event p ≡ some event
    → next_round bc x s ≡ (
      entry (record {
        offset = offset_of s;
        offset_after = record {
          segment_id = s.segment_id;
          byte_offset = s.byte_offset + (4 + length p);
        };
        event = event;
      }),
      record s {
        byte_offset = s.byte_offset + (4 + length p);
        reader = some (s.byte_offset + (4 + length p));
      },
    )
unfolding next_round read_one open_at act
next_round-delivers bc x s event p more aligned o k at fits back =
    let r = read_at-frame bc x s.byte_offset event p more at fits back in ground (arith, r, aligned)

take-frame : (p more : List ℕ) → take 4 (frame p ++ more) ≡ to_le_bytes 4 (length p)
take-frame p more = rw (frame-append p more) (
    subst (λ n. take n (to_le_bytes 4 (length p) ++ (p ++ more)) ≡ to_le_bytes 4 (length p))
      (length-to_le_bytes 4 (length p)) (take-append_length (to_le_bytes 4 (length p)) (p ++ more)))

-- A durable record of more than 1 MiB is not passed: where the file only grows and the writer's offset
-- is behind the record's start in the same segment, a round that starts with no open descriptor ends where it began, and goes round
-- again at once.
pub next_round-stuck :
    (bc : Bincode) (x : Round) (s : Subscription) (p more later : List ℕ)
    → s.reader ≡ none
    → x.opening ≡ opened
    → x.seeks ≡ true
    → drop s.byte_offset x.bytes ≡ frame p ++ more
    → drop s.byte_offset x.reopened_bytes ≡ frame p ++ later
    → max_wal_record_payload_bytes < length p
    → length p < 2 ^ 32
    → x.head.segment_id ≡ s.segment_id
    → s.byte_offset < x.head.byte_offset
    → next_round bc x s ≡ (again, s)
unfolding next_round read_one open_at read_at act wait_or_advance skip_corrupt_record
    read_len_prefix
next_round-stuck bc x s p more later r o k at again_at long fits same ahead =
    let d : decode_into bc (record { rest = drop s.byte_offset x.bytes; ending = x.ending })
        ≡ (err (exceeds_max (length p)), record { rest = p ++ more; ending = x.ending }) =
      rw at (decode_into-oversized bc p more x.ending long fits) in
    let prefix : from_le_bytes (take 4 (drop s.byte_offset x.reopened_bytes)) ≡ length p =
      rw (again_at, take-frame p later) (from_le_bytes-to_le_bytes (length p) fits) in
    let width : 4 ≤ length (drop s.byte_offset x.reopened_bytes) =
      omega (arith, ap length again_at, length-append (frame p) later, length-frame p) in
    ground (arith, d, prefix, r, width)
