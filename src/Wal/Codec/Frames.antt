-- ===== src/Wal/Codec/Frames.antt =====
-- What the functions of wal/codec.rs do on whole frames, and on the start of one.
use ingestion_service.Common.{
  ℕ, ◌+◌, ◌^◌, ◌≤◌, ◌<◌, ◌≡◌, refl, ap, none, some, List, [], ◌∷◌, ◌++◌, append_assoc, ok, err,
  length, length-append, take-append_length, drop-append_length, leb, leb→le, not_leb→lt, le→leb,
  lt→not_leb, lt→ltb, le→not_ltb, arith, Bool-cases, Option-cases, inl, inr,
}
use ingestion_service.Wal.Bytes.{to_le_bytes, from_le_bytes, length-to_le_bytes}
use ingestion_service.Wal.Bytes.{from_le_bytes-to_le_bytes}
use ingestion_service.Wal.Types.{WalEvent, unexpected_eof, exceeds_max}
use ingestion_service.Wal.Codec.{
  max_wal_record_payload_bytes, Bincode, Reader, Ending, at_eof, read_exact, encode_into,
  over_limit, decode_payload, decode_into, recover_payload, decode_for_recovery, clean_eof,
}

-- A record as it stands on disk.
unfoldable pub frame : List ℕ → List ℕ
frame payload = to_le_bytes 4 (length payload) ++ payload

pub length-frame : (p : List ℕ) → length (frame p) ≡ 4 + length p
unfolding frame
length-frame p =
    omega (arith, length-append (to_le_bytes 4 (length p)) p, length-to_le_bytes 4 (length p))

abbrev pub reader : List ℕ → Ending → Reader
reader rest ending = record { rest = rest; ending = ending }

-- A read of exactly the bytes that stand first.
pub read_exact_all :
    (n : ℕ) (xs ys : List ℕ) (e : Ending)
    → length xs ≡ n
    → read_exact n (reader (xs ++ ys) e) ≡ (ok xs, reader ys e)
unfolding read_exact
read_exact_all n xs ys e h = rw (
  ← h,
  le→leb (length xs) (length (xs ++ ys)) (omega (arith, length-append xs ys)),
  take-append_length xs ys,
  drop-append_length xs ys,
)

-- A read past the end of the input.
pub read_exact_short :
    (n : ℕ) (xs : List ℕ)
    → length xs < n
    → read_exact n (reader xs at_eof) ≡ (err unexpected_eof, reader [] at_eof)
unfolding read_exact
read_exact_short n xs h = rw (lt→not_leb n (length xs) h)

pub frame-append : (p more : List ℕ) → frame p ++ more ≡ to_le_bytes 4 (length p) ++ (p ++ more)
unfolding frame
frame-append p more = append_assoc (to_le_bytes 4 (length p)) p more

-- What `encode_into` leaves in its buffer is one frame.
pub encode_into-eq-frame :
    (bc : Bincode) (event : WalEvent) (b : List ℕ)
    → encode_into bc event ≡ ok b
    → (p : List ℕ) × (bc.write_event event ≡ some p) × (b ≡ frame p) × (length p < 2 ^ 32)
unfolding encode_into frame
encode_into-eq-frame bc event b h = elim (Option-cases (bc.write_event event)) [
  | inl e ↦ ground (arith, e)
  | inr (p, e) ↦ (p, e, ground (arith, e), ground (arith, e))
]

-- An event that serializes to less than 4 GiB is written as one frame.
pub encode_into-frame :
    (bc : Bincode) (event : WalEvent) (p : List ℕ)
    → bc.write_event event ≡ some p
    → length p < 2 ^ 32
    → encode_into bc event ≡ ok (frame p)
unfolding encode_into frame
encode_into-frame bc event p written fits = ground (arith, written)

abbrev pub IsPayload : List ℕ → Type 0
IsPayload p = length p ≤ max_wal_record_payload_bytes

module _ (bc : Bincode) (p more : List ℕ) (e : Ending) where
  from_le_bytes-length : length p < 2 ^ 32 → from_le_bytes (to_le_bytes 4 (length p)) ≡ length p
  from_le_bytes-length h = from_le_bytes-to_le_bytes (length p) h

  -- A whole frame in front of anything is read as its payload.
  pub decode_into-frame :
      IsPayload p
      → decode_into bc (reader (frame p ++ more) e)
        ≡ decode_payload bc (length p) (ok p, reader more e)
  unfolding decode_into over_limit
  decode_into-frame h = rw (
    frame-append p more,
    read_exact_all 4 (to_le_bytes 4 (length p)) (p ++ more) e (length-to_le_bytes 4 (length p)),
    from_le_bytes-length (omega arith),
    le→not_ltb max_wal_record_payload_bytes (length p) h,
    read_exact_all (length p) p more e refl,
  )

  pub decode_for_recovery-frame :
      IsPayload p
      → decode_for_recovery bc (reader (frame p ++ more) e)
        ≡ recover_payload bc (length p) (ok p, reader more e)
  unfolding decode_for_recovery over_limit
  decode_for_recovery-frame h = rw (
    frame-append p more,
    read_exact_all 4 (to_le_bytes 4 (length p)) (p ++ more) e (length-to_le_bytes 4 (length p)),
    from_le_bytes-length (omega arith),
    le→not_ltb max_wal_record_payload_bytes (length p) h,
    read_exact_all (length p) p more e refl,
  )

  -- A frame that `encode_into` makes and `decode_into` refuses.
  pub decode_into-oversized :
      max_wal_record_payload_bytes < length p
      → length p < 2 ^ 32
      → decode_into bc (reader (frame p ++ more) e)
        ≡ (err (exceeds_max (length p)), reader (p ++ more) e)
  unfolding decode_into over_limit
  decode_into-oversized h small = rw (
    frame-append p more,
    read_exact_all 4 (to_le_bytes 4 (length p)) (p ++ more) e (length-to_le_bytes 4 (length p)),
    from_le_bytes-length small,
    lt→ltb max_wal_record_payload_bytes (length p) h,
  )

  pub decode_for_recovery-oversized :
      max_wal_record_payload_bytes < length p
      → length p < 2 ^ 32
      → decode_for_recovery bc (reader (frame p ++ more) e) ≡ (ok clean_eof, reader (p ++ more) e)
  unfolding decode_for_recovery over_limit
  decode_for_recovery-oversized h small = rw (
    frame-append p more,
    read_exact_all 4 (to_le_bytes 4 (length p)) (p ++ more) e (length-to_le_bytes 4 (length p)),
    from_le_bytes-length small,
    lt→ltb max_wal_record_payload_bytes (length p) h,
  )

-- The first part of an append that is no shorter than a given front splits at that front.
split_front :
    (a b front back : List ℕ)
    → a ++ b ≡ front ++ back
    → length a ≤ length front
    → (c : List ℕ) × (front ≡ a ++ c) × (b ≡ c ++ back)
split_front [] b front back h n = (front, refl, h)
split_front (x ∷ a) b [] back h n = absurd (omega arith)
split_front (x ∷ a) b (y ∷ front) back h n =
    let (c, p, q) = split_front a b front back (cc h) (omega arith) in (c, cc (h, p), q)

module _ (bc : Bincode) (p front back : List ℕ) (x : ℕ) (is_payload : IsPayload p) where
  -- The start of a frame that is at least four bytes long has the frame's length.
  long_front :
      frame p ≡ front ++ (x ∷ back)
      → 4 ≤ length front
      → (c : List ℕ) × (front ≡ to_le_bytes 4 (length p) ++ c) × (length c < length p)
  unfolding frame
  long_front h n =
      let (c, e, f) =
        split_front (to_le_bytes 4 (length p)) p front (x ∷ back) h
          (omega (arith, length-to_le_bytes 4 (length p))) in
      (c, e, omega (arith, ap length f, length-append c (x ∷ back)))

  pub decode_into-cut :
      frame p ≡ front ++ (x ∷ back)
      → decode_into bc (reader front at_eof) ≡ (ok none, reader [] at_eof)
  unfolding decode_into
  decode_into-cut h = elim (Bool-cases (leb 4 (length front))) [
    | inl long ↦
        let (c, e, short) = long_front h (leb→le 4 (length front) long) in
        rw (
          e,
          read_exact_all 4 (to_le_bytes 4 (length p)) c at_eof (length-to_le_bytes 4 (length p)),
          from_le_bytes-to_le_bytes (length p) (omega arith),
          le→not_ltb max_wal_record_payload_bytes (length p) is_payload,
          read_exact_short (length p) c short,
        )
    | inr short ↦ rw (read_exact_short 4 front (not_leb→lt 4 (length front) short))
  ]

  pub decode_for_recovery-cut :
      frame p ≡ front ++ (x ∷ back)
      → decode_for_recovery bc (reader front at_eof) ≡ (ok clean_eof, reader [] at_eof)
  unfolding decode_for_recovery
  decode_for_recovery-cut h = elim (Bool-cases (leb 4 (length front))) [
    | inl long ↦
        let (c, e, short) = long_front h (leb→le 4 (length front) long) in
        rw (
          e,
          read_exact_all 4 (to_le_bytes 4 (length p)) c at_eof (length-to_le_bytes 4 (length p)),
          from_le_bytes-to_le_bytes (length p) (omega arith),
          le→not_ltb max_wal_record_payload_bytes (length p) is_payload,
          read_exact_short (length p) c short,
        )
    | inr short ↦ rw (read_exact_short 4 front (not_leb→lt 4 (length front) short))
  ]
