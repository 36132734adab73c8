-- ===== src/Wal/Segment/Names.antt =====
-- A segment's name and its id determine each other, but for a plus sign.
use ingestion_service.Common.{
  ℕ, zero, suc, ◌+◌, ◌-◌, ◌*◌, ◌/◌, ◌%◌, ◌^◌, ◌<◌, ◌≤◌, ◌≡◌, ◌≢◌, refl, ap, ◌∙◌, some, List, [],
  ◌∷◌, ◌++◌, arith,
}
use native.Mathlib.Nat.{pow-suc}
use ingestion_service.Wal.Segment.{
  padded_digits, segment_filename, dot_log, strip_suffix, parse_digits, parse_u64, parse_segment_id,
}

parse_digits-snoc :
    (acc : ℕ) (cs : List ℕ) (d a : ℕ)
    → parse_digits acc cs ≡ some a
    → d < 10
    → a * 10 + d < 2 ^ 64
    → parse_digits acc (cs ++ (48 + d) ∷ []) ≡ some (a * 10 + d)
unfolding parse_digits
parse_digits-snoc acc [] d a h small fits = ground arith
parse_digits-snoc acc (c ∷ cs) d a h small fits =
    ground (arith, parse_digits-snoc (acc * 10 + (c - 48)) cs d a)

pow_step : (n v : ℕ) → v < 10 ^ suc n → v / 10 < 10 ^ n
pow_step n v h = omega (arith, pow-suc 10 n)

parse_digits-padded_digits :
    (n v : ℕ) → v < 10 ^ n → v < 2 ^ 64 → parse_digits 0 (padded_digits n v) ≡ some v
unfolding padded_digits
parse_digits-padded_digits zero v h fits = unfold parse_digits in ap some (omega arith)
parse_digits-padded_digits (suc n) v h fits =
    parse_digits-snoc 0 (padded_digits n (v / 10)) (v % 10) (v / 10)
      (parse_digits-padded_digits n (v / 10) (pow_step n v h) (omega arith)) (omega arith)
      (omega arith)
    ∙ ap some (omega arith)

no_plus : (c d : ℕ) (cs : List ℕ) → 48 ≤ c → parse_u64 (c ∷ d ∷ cs) ≡ parse_digits 0 (c ∷ d ∷ cs)
unfolding parse_u64
no_plus c d cs h = ground arith

plus : (d : ℕ) (cs : List ℕ) → parse_u64 (b'+' ∷ d ∷ cs) ≡ parse_digits 0 (d ∷ cs)
unfolding parse_u64
plus d cs = refl

-- Every 64-bit id is read back from the name of its file.
pub parse_segment_id-segment_filename :
    (id : ℕ) → id < 2 ^ 64 → parse_segment_id (segment_filename id) ≡ some id
unfolding parse_segment_id segment_filename strip_suffix padded_digits
parse_segment_id-segment_filename id h =
    no_plus _ _ _ (omega arith) ∙ parse_digits-padded_digits 20 id (omega arith) h

-- A name of 24 bytes that has a plus sign in place of the first digit is read as the same id,
-- although it is not the id's file name.
parse_segment_id_plus :
    (id : ℕ)
    → id < 10 ^ 19
    → (parse_segment_id (b'+' ∷ (padded_digits 19 id ++ dot_log)) ≡ some id)
      × ((b'+' ∷ (padded_digits 19 id ++ dot_log)) ≢ segment_filename id)
unfolding parse_segment_id segment_filename strip_suffix padded_digits
parse_segment_id_plus id h =
    (plus _ _ ∙ parse_digits-padded_digits 19 id h (omega arith), λ e. ground arith)
