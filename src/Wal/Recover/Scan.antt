-- ===== src/Wal/Recover/Scan.antt =====
-- `last_valid_offset` finds the end of the last whole frame.
use ingestion_service.Common.{
  ℕ, zero, suc, ◌+◌, ◌≤◌, ◌<◌, ◌≡◌, refl, sym, ap, ◌∙◌, ◌⊎◌, inl, inr, some, List, [], ◌∷◌, ◌++◌,
  append_assoc, ok, length, take, drop, length-append, length-take, length-drop, take-append-drop,
  take-append_length, All, Bool-cases, Option-cases, leb, leb→le, not_leb→lt, ltb, ltb→lt,
  not_ltb→le, arith, true,
}
use ingestion_service.Wal.Bytes.{IsByte, to_le_bytes, from_le_bytes}
use ingestion_service.Wal.Types.{WalEvent}
use ingestion_service.Wal.Codec.{
  max_wal_record_payload_bytes, Bincode, at_eof, decode_for_recovery, recover_payload, valid_record,
  clean_eof, frame_corrupt, DecodeOutcome,
}
use ingestion_service.Wal.Codec.Frames.{frame, length-frame, reader, IsPayload}
use ingestion_service.Wal.Codec.Frames.{decode_for_recovery-frame}
use ingestion_service.Wal.Recover.{file, scan, last_valid_offset, truncate_to}

-- The frames of some payloads, one after the other.
abbrev pub frames : List (List ℕ) → List ℕ
frames [] = []
frames (p ∷ ps) = frame p ++ frames ps

-- No whole frame: the four bytes of a length are not there, or the length is over the limit, or
-- the payload is cut.
abbrev pub IsTorn : List ℕ → Type 0
IsTorn t =
    (length t < 4)
    ⊎ ((max_wal_record_payload_bytes < from_le_bytes (take 4 t))
        ⊎ (length t < 4 + from_le_bytes (take 4 t)))

module _ (bc : Bincode) where
  decode_torn :
      (t : List ℕ) → IsTorn t → (decode_for_recovery bc (reader t at_eof)).0 ≡ ok clean_eof
  unfolding decode_for_recovery
  decode_torn t h = ground (arith, length-drop 4 t)

  scan_torn :
      (fuel n : ℕ) (t : List ℕ) → IsTorn t → scan bc (suc fuel) n (reader t at_eof) ≡ some (ok n)
  unfolding scan
  scan_torn fuel n t h = rw (decode_torn t h, scan)

  -- What recovery answers at a whole frame, by whether its payload deserializes.
  decode_frame :
      (p more : List ℕ)
      → IsPayload p
      → (d : DecodeOutcome) × (decode_for_recovery bc (reader (frame p ++ more) at_eof)
          ≡ (ok d, reader more at_eof))
        × (((event : WalEvent) × (d ≡ valid_record event (4 + length p)))
            ⊎ (d ≡ frame_corrupt (4 + length p)))
  unfolding recover_payload
  decode_frame p more h = elim (Option-cases (bc.read_event p)) [
    | inl e ↦ (_, decode_for_recovery-frame bc p more at_eof h ∙ rw (e, recover_payload), inr refl)
    | inr (event, e) ↦ (
      _,
      decode_for_recovery-frame bc p more at_eof h ∙ rw (e, recover_payload),
      inl (event, refl),
    )
  ]

  scan-frame :
      (fuel n : ℕ) (p more : List ℕ)
      → IsPayload p
      → scan bc (suc fuel) n (reader (frame p ++ more) at_eof)
        ≡ scan bc fuel (n + (4 + length p)) (reader more at_eof)
  unfolding scan
  scan-frame fuel n p more h =
      let (d, e, cases) = decode_frame p more h in
      elim cases [
        | inl (event, is_valid) ↦ ground (arith, e, is_valid)
        | inr is_corrupt ↦ ground (arith, e, is_corrupt)
      ]

  scan-frames :
      (fuel n : ℕ) (ps : List (List ℕ)) (t : List ℕ)
      → All IsPayload ps
      → IsTorn t
      → length (frames ps ++ t) < fuel
      → scan bc fuel n (reader (frames ps ++ t) at_eof) ≡ some (ok (n + length (frames ps)))
  scan-frames zero n ps t h torn enough = absurd (omega arith)
  scan-frames (suc fuel) n [] t h torn enough =
      scan_torn fuel n t torn ∙ ap (λ (k : ℕ). some (ok k)) (omega arith)
  scan-frames (suc fuel) n (p ∷ ps) t h torn enough =
      rw (append_assoc (frame p) (frames ps) t, scan-frame fuel n p (frames ps ++ t) h.0)
        (scan-frames fuel (n + (4 + length p)) ps t h.1 torn (
            omega (
              arith,
              length-frame p,
              length-append (frame p) (frames ps),
              length-append (frame p ++ frames ps) t,
              length-append (frames ps) t,
            ))
          ∙ ap (λ (k : ℕ). some (ok k))
              (omega (arith, length-frame p, length-append (frame p) (frames ps))))

-- A file splits into whole frames and a torn rest.
abbrev pub Splits : List ℕ → Type 0
Splits bytes =
    (ps : List (List ℕ)) × (t : List ℕ) × All IsPayload ps × IsTorn t × (bytes ≡ frames ps ++ t)

le_bytes_back : (l : List ℕ) → All IsByte l → length l ≡ 4 → to_le_bytes 4 (from_le_bytes l) ≡ l
unfolding to_le_bytes from_le_bytes
le_bytes_back (a ∷ b ∷ c ∷ d ∷ []) h n = ground arith
le_bytes_back _ h n = absurd (omega arith)

All-take {ℓ} : {A : Type ℓ} (P : A → Type 0) (n : ℕ) (xs : List A) → All P xs → All P (take n xs)
All-take P zero xs h = tt
All-take P (suc n) [] h = tt
All-take P (suc n) (x ∷ xs) h = (h.0, All-take P n xs h.1)

All-drop {ℓ} : {A : Type ℓ} (P : A → Type 0) (n : ℕ) (xs : List A) → All P xs → All P (drop n xs)
All-drop P zero xs h = h
All-drop P (suc n) [] h = tt
All-drop P (suc n) (x ∷ xs) h = All-drop P n xs h.1

-- The bytes of a whole frame at the front of a file are the frame of their payload.
front_frame :
    (bytes : List ℕ)
    → All IsByte bytes
    → 4 ≤ length bytes
    → 4 + from_le_bytes (take 4 bytes) ≤ length bytes
    → let len = from_le_bytes (take 4 bytes) in
      (length (take len (drop 4 bytes)) ≡ len)
      × (bytes ≡ frame (take len (drop 4 bytes)) ++ drop len (drop 4 bytes))
unfolding frame
front_frame bytes h four whole =
    let len : ℕ = from_le_bytes (take 4 bytes) in
    let p : List ℕ = take len (drop 4 bytes) in
    let width : length p ≡ len =
      omega (arith, length-take len (drop 4 bytes), length-drop 4 bytes) in
    let prefix : to_le_bytes 4 len ≡ take 4 bytes =
      le_bytes_back (take 4 bytes) (All-take IsByte 4 bytes h)
        (omega (arith, length-take 4 bytes)) in
    (
      width,
      rw (
        width,
        prefix,
        append_assoc (take 4 bytes) p (drop len (drop 4 bytes)),
        take-append-drop len (drop 4 bytes),
        take-append-drop 4 bytes,
      ),
    )

split_bytes : (fuel : ℕ) (bytes : List ℕ) → All IsByte bytes → length bytes < fuel → Splits bytes
split_bytes zero bytes h enough = absurd (omega arith)
split_bytes (suc fuel) bytes h enough = elim (Bool-cases (leb 4 (length bytes))) [
  | inr short ↦ ([], bytes, tt, inl (not_leb→lt 4 (length bytes) short), refl)
  | inl four ↦
      let len : ℕ = from_le_bytes (take 4 bytes) in
      elim (Bool-cases (ltb max_wal_record_payload_bytes len)) [
        | inl over ↦ ([], bytes, tt, inr (inl (ltb→lt _ len over)), refl)
        | inr within ↦ elim (Bool-cases (leb (4 + len) (length bytes))) [
          | inr cut ↦ ([], bytes, tt, inr (inr (not_leb→lt (4 + len) (length bytes) cut)), refl)
          | inl whole ↦
              let (width, eq) =
                front_frame bytes h (leb→le 4 (length bytes) four)
                  (leb→le (4 + len) (length bytes) whole) in
              let rest : List ℕ = drop len (drop 4 bytes) in
              let (ps, t, payloads, torn, e) =
                split_bytes fuel rest
                  (All-drop IsByte len (drop 4 bytes) (All-drop IsByte 4 bytes h))
                  (omega (
                    arith,
                    length-drop len (drop 4 bytes),
                    length-drop 4 bytes,
                    leb→le 4 (length bytes) four,
                  )) in
              (
                take len (drop 4 bytes) ∷ ps,
                t,
                (
                  omega (arith, width, not_ltb→le max_wal_record_payload_bytes len within),
                  payloads,
                ),
                torn,
                eq
                    ∙ ap (λ (l : List ℕ). frame (take len (drop 4 bytes)) ++ l) e
                    ∙ sym (append_assoc (frame (take len (drop 4 bytes))) (frames ps) t),
              )
        ]
      ]
]

-- Every readable segment file is a sequence of whole frames of at most 1 MiB and a torn rest;
-- `last_valid_offset` ends and answers the length of those frames, whether or not their payloads
-- deserialize, and truncating the file there leaves those frames.
pub last_valid_offset-frames :
    (bc : Bincode) (bytes : List ℕ)
    → All IsByte bytes
    → (ps : List (List ℕ)) × (t : List ℕ) × All IsPayload ps
      × IsTorn t
      × (bytes ≡ frames ps ++ t)
      × (last_valid_offset bc (file (reader bytes at_eof)) ≡ some (ok (length (frames ps))))
      × (truncate_to true true (length (frames ps)) bytes ≡ (ok tt, frames ps))
unfolding last_valid_offset truncate_to
last_valid_offset-frames bc bytes h =
    let (ps, t, payloads, torn, e) = split_bytes (suc (length bytes)) bytes h (omega arith) in
    (
      ps,
      t,
      payloads,
      torn,
      e,
      rw e (
          scan-frames bc (suc (length (frames ps ++ t))) 0 ps t payloads torn (omega arith)
          ∙ ap (λ (k : ℕ). some (ok k)) (omega arith)),
      rw e (ap (λ (l : List ℕ). (ok tt, l)) (take-append_length (frames ps) t)),
    )
