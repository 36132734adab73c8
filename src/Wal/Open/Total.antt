-- ===== src/Wal/Open/Total.antt =====
-- That a start always comes to an end.
use ingestion_service.Common.{
  ℕ, zero, suc, ◌+◌, ◌<◌, ◌≡◌, refl, Option, none, some, List, Result, ok, err, length, arith, Bool,
  true, false, if◌then◌else◌, Result-cases, inl, inr,
}
use ingestion_service.Wal.Types.{WalOptions, WalError}
use ingestion_service.Wal.Codec.{
  Bincode, Reader, valid_record, clean_eof, frame_corrupt, decode_for_recovery,
}
use ingestion_service.Wal.Codec.Agreement.{recovery-Consumes}
use ingestion_service.Wal.Recover.{Opened, file, missing, refused, scan, last_valid_offset}
use ingestion_service.Wal.Segment.{list_segments}
use ingestion_service.Wal.Cursor.{CursorFiles}
use ingestion_service.Wal.Open.{
  Disk, Faults, opened_as, last, heal_scanned, recover_segment, recover_active, finish_open,
  open_listed, open_wal,
}

-- There is an answer.
abbrev pub Ends {ℓ} : {A : Type ℓ} → Option A → Type ℓ
Ends {A = A} o = (a : A) × (o ≡ some a)

if-Ends : {A : Type 0} (b : Bool) (x y : Option A) → Ends x → Ends y → Ends (if b then x else y)
if-Ends true x y h k = h
if-Ends false x y h k = k

scan-step :
    (bc : Bincode) (fuel n : ℕ) (r : Reader)
    → ((k : ℕ)
        → length (decode_for_recovery bc r).1.rest < length r.rest
        → Ends (scan bc fuel k (decode_for_recovery bc r).1))
    → Ends (scan bc (suc fuel) n r)
unfolding scan
scan-step bc fuel n r again = elim (Result-cases (decode_for_recovery bc r).0) [
  | inr (x, e) ↦ (err x, ground (arith, e))
  | inl (valid_record event k, e) ↦
      let (a, q) = again (n + k) (omega (arith, recovery-Consumes bc r (valid_record event k) e)) in
      (a, ground (arith, e, q))
  | inl (clean_eof, e) ↦ (ok n, ground (arith, e))
  | inl (frame_corrupt k, e) ↦
      let (a, q) = again (n + k) (omega (arith, recovery-Consumes bc r (frame_corrupt k) e)) in
      (a, ground (arith, e, q))
]

scan-Ends :
    (bc : Bincode) (fuel n : ℕ) (r : Reader) → length r.rest < fuel → Ends (scan bc fuel n r)
scan-Ends bc zero n r h = absurd (omega arith)
scan-Ends bc (suc fuel) n r h =
    scan-step bc fuel n r
      (λ k shorter. scan-Ends bc fuel k (decode_for_recovery bc r).1 (omega arith))

last_valid_offset-Ends : (bc : Bincode) (o : Opened) → Ends (last_valid_offset bc o)
unfolding last_valid_offset
last_valid_offset-Ends bc (file r) = scan-Ends bc (suc (length r.rest)) 0 r (omega arith)
last_valid_offset-Ends bc missing = (ok 0, refl)
last_valid_offset-Ends bc refused = (_, refl)

heal_scanned-Ends :
    (f : Faults) (id : ℕ) (bytes : List ℕ) (disk : Disk) (o : Option (Result WalError ℕ))
    → Ends o
    → Ends (heal_scanned f id bytes disk o)
unfolding heal_scanned
heal_scanned-Ends f id bytes disk none (a, e) = cc
heal_scanned-Ends f id bytes disk (some (err x)) h = (_, refl)
heal_scanned-Ends f id bytes disk (some (ok valid)) h = (_, refl)

recover_segment-Ends :
    (bc : Bincode) (f : Faults) (id : ℕ) (disk : Disk) (o : Option (List ℕ))
    → Ends (recover_segment bc f id disk o)
unfolding recover_segment
recover_segment-Ends bc f id disk none = (_, refl)
recover_segment-Ends bc f id disk (some bytes) =
    if-Ends f.stats _ _
      (heal_scanned-Ends f id bytes disk _ (last_valid_offset-Ends bc (opened_as f.scanning bytes)))
      (_, refl)

recover_active-Ends :
    (bc : Bincode) (f : Faults) (disk : Disk) (o : Option ℕ) → Ends (recover_active bc f disk o)
unfolding recover_active
recover_active-Ends bc f disk none = (_, refl)
recover_active-Ends bc f disk (some id) = recover_segment-Ends bc f id disk (disk id)

finish_open-Ends :
    (f : Faults) (options : WalOptions) (now : ℕ) (ids : List ℕ) (cursor : CursorFiles)
    (o : Option (Result WalError (ℕ × ℕ) × Disk))
    → Ends o
    → Ends (finish_open f options now ids cursor o)
unfolding finish_open
finish_open-Ends f options now ids cursor none (a, e) = cc
finish_open-Ends f options now ids cursor (some (err x, disk)) h = (_, refl)
finish_open-Ends f options now ids cursor (some (ok (id, len), disk)) h = (_, refl)

open_listed-Ends :
    (bc : Bincode) (f : Faults) (options : WalOptions) (now : ℕ) (disk : Disk)
    (cursor : CursorFiles) (r : Result WalError (List ℕ))
    → Ends (open_listed bc f options now disk cursor r)
unfolding open_listed
open_listed-Ends bc f options now disk cursor (err x) = (_, refl)
open_listed-Ends bc f options now disk cursor (ok ids) =
    finish_open-Ends f options now ids cursor _ (recover_active-Ends bc f disk (last ids))

-- More fuel makes no difference to a scan that has more than there are bytes.
scan-fuel :
    (bc : Bincode) (fuel fuel' n : ℕ) (r : Reader)
    → length r.rest < fuel
    → length r.rest < fuel'
    → scan bc fuel n r ≡ scan bc fuel' n r
unfolding scan
scan-fuel bc zero fuel' n r h k = absurd (omega arith)
scan-fuel bc (suc fuel) zero n r h k = absurd (omega arith)
scan-fuel bc (suc fuel) (suc fuel') n r h k = elim (Result-cases (decode_for_recovery bc r).0) [
  | inr (x, e) ↦ ground (arith, e)
  | inl (valid_record event w, e) ↦
      let shorter = recovery-Consumes bc r (valid_record event w) e in
      let same =
        scan-fuel bc fuel fuel' (n + w) (decode_for_recovery bc r).1 (omega (arith, shorter))
          (omega (arith, shorter)) in
      ground (arith, e, same)
  | inl (clean_eof, e) ↦ ground (arith, e)
  | inl (frame_corrupt w, e) ↦
      let shorter = recovery-Consumes bc r (frame_corrupt w) e in
      let same =
        scan-fuel bc fuel fuel' (n + w) (decode_for_recovery bc r).1 (omega (arith, shorter))
          (omega (arith, shorter)) in
      ground (arith, e, same)
]

-- A start ends, with a log or with an error, whatever the files hold and however the file operations
-- end. It does not depend on the fuel: the scan of a segment has the same answer whatever number of
-- rounds is allowed to it beyond one for each byte and one more.
pub open_wal-Ends :
    (bc : Bincode) (f : Faults) (options : WalOptions) (now : ℕ) (disk : Disk)
    (cursor : CursorFiles) (r : Reader) (extra : ℕ)
    → Ends (open_wal bc f options now disk cursor)
      × (scan bc (extra + suc (length r.rest)) 0 r ≡ last_valid_offset bc (file r))
unfolding open_wal last_valid_offset
open_wal-Ends bc f options now disk cursor r extra = (
  if-Ends f.creates_dir _ _
      (open_listed-Ends bc f options now disk cursor (list_segments f.listing)) (_, refl),
  scan-fuel bc (extra + suc (length r.rest)) (suc (length r.rest)) 0 r (omega arith) (omega arith),
)
