-- ===== src/Wal/Head/Coherent.antt =====
-- That a load never mixes two stores.
use ingestion_service.Common.{
  ℕ, ◌+◌, ◌*◌, ◌%◌, ◌^◌, ◌≤◌, ◌<◌, ◌≡◌, refl, subst, sym, arith, ◌==◌, Bool-cases, inl, inr,
}
use ingestion_service.Wal.Types.{WalOffset}
use ingestion_service.Wal.Head.{
  WriterAt, idle, begun, half, both, ReaderAt, start, even, with_segment, with_both, returned, Head,
  new, check_start, check_end, Step, store_begin, store_segment, store_byte, store_end, load_start,
  load_segment, load_byte, load_end, load_again, Reach, here, next,
}

-- The version and the fields, by where the writer is; `n` stores are complete.
abbrev pub WriterFits : WriterAt → ℕ → ℕ → ℕ → ℕ → WalOffset → Type 0
WriterFits idle n v a b latest = (v ≡ 2 * n) × (a ≡ latest.segment_id) × (b ≡ latest.byte_offset)
WriterFits (begun o) n v a b latest = v ≡ 2 * n + 1
WriterFits (half o) n v a b latest = (v ≡ 2 * n + 1) × (a ≡ o.segment_id)
WriterFits (both o) n v a b latest = (v ≡ 2 * n + 1) × (a ≡ o.segment_id) × (b ≡ o.byte_offset)

-- What was read is of the last store for as long as the version is the one that was read.
abbrev pub ReaderFits : ReaderAt → ℕ → WalOffset → Type 0
ReaderFits start now latest = Unit {0}
ReaderFits (even v) now latest = (v ≤ now) × (v % 2 ≡ 0)
ReaderFits (with_segment v a) now latest =
    (v ≤ now) × (v % 2 ≡ 0) × (v ≡ now → a ≡ latest.segment_id)
ReaderFits (with_both v a b) now latest =
    (v ≤ now) × (v % 2 ≡ 0) × (v ≡ now → a ≡ latest.segment_id) × (v ≡ now → b ≡ latest.byte_offset)
ReaderFits (returned o) now latest = Unit {0}

pub record IsCoherent (s : Head) : Type 0 where
  pub writes : WriterFits s.writer s.stores s.version s.segment_id s.byte_offset s.latest
  pub reads : ReaderFits s.reader s.version s.latest

Step-IsCoherent : {s u : Head} → Step s u → u.stores < 2 ^ 63 → IsCoherent s → IsCoherent u
unfolding check_start check_end
Step-IsCoherent (store_begin s o e) few c = ground arith
Step-IsCoherent (store_segment s o e) few c = ground arith
Step-IsCoherent (store_byte s o e) few c = ground arith
Step-IsCoherent (store_end s o e) few c = ground arith
Step-IsCoherent (load_start s e) few c = ground arith
Step-IsCoherent (load_segment s v e) few c = ground arith
Step-IsCoherent (load_byte s v a e) few c = ground arith
Step-IsCoherent (load_end s v a b e) few c = ground arith
Step-IsCoherent (load_again s o e) few c = ground arith

new-IsCoherent : (o : WalOffset) → IsCoherent (new o)
unfolding new
new-IsCoherent o = record { writes = (omega arith, refl, refl); reads = tt }

stores_mono : {s u : Head} → Step s u → s.stores ≤ u.stores
stores_mono (store_begin s o e) = omega arith
stores_mono (store_segment s o e) = omega arith
stores_mono (store_byte s o e) = omega arith
stores_mono (store_end s o e) = omega arith
stores_mono (load_start s e) = omega arith
stores_mono (load_segment s v e) = omega arith
stores_mono (load_byte s v a e) = omega arith
stores_mono (load_end s v a b e) = omega arith
stores_mono (load_again s o e) = omega arith

Reach-IsCoherent : (o : WalOffset) {s : Head} → Reach (new o) s → s.stores < 2 ^ 63 → IsCoherent s
Reach-IsCoherent o here few = new-IsCoherent o
Reach-IsCoherent o (next r st) few =
    Step-IsCoherent st few (Reach-IsCoherent o r (omega (arith, stores_mono st)))

-- What an access is to somebody who sees one offset that is written and read as a whole.
pub data Event : Type 0 where
  quiet : Event
  wrote loaded : WalOffset → Event

pub data Atomic : WalOffset → Event → WalOffset → Type 0 where
  nothing : (x : WalOffset) → Atomic x quiet x
  write : (x o : WalOffset) → Atomic x (wrote o) o
  read : (x : WalOffset) → Atomic x (loaded x) x

-- A load takes place at the access by which it returns.
abbrev pub event_at : ReaderAt → Event
event_at (returned o) = loaded o
event_at start = quiet
event_at (even v) = quiet
event_at (with_segment v a) = quiet
event_at (with_both v a b) = quiet

-- A store takes place at its last access.
abbrev pub event_of : {s u : Head} → Step s u → Event
event_of (store_end s o e) = wrote o
event_of (load_end s v a b e) = event_at (check_end v a b s.version)
event_of (store_begin s o e) = quiet
event_of (store_segment s o e) = quiet
event_of (store_byte s o e) = quiet
event_of (load_start s e) = quiet
event_of (load_segment s v e) = quiet
event_of (load_byte s v a e) = quiet
event_of (load_again s o e) = quiet

load_end-Atomic :
    (s : Head) (v a b : ℕ)
    → s.reader ≡ with_both v a b
    → IsCoherent s
    → Atomic s.latest (event_at (check_end v a b s.version)) s.latest
unfolding check_end
load_end-Atomic s v a b e c = elim (Bool-cases (v == s.version)) [
  | inr t ↦
      let again : check_end v a b s.version ≡ start = ground (arith, t) in
      subst (λ x. Atomic s.latest (event_at x) s.latest) (sym again) (nothing s.latest)
  | inl t ↦
      let back : check_end v a b s.version ≡ returned s.latest = ground (arith, t, e) in
      subst (λ x. Atomic s.latest (event_at x) s.latest) (sym back) (read s.latest)
]

-- The seqlock refines an offset that is written and read as a whole: from any reachable state, each
-- access of either thread does nothing to it, or writes the stored offset at the last access of
-- `store`, or reads it at the access by which `load` returns. The version may not wrap around, for
-- which fewer than 2 ^ 63 stores are enough.
pub Step-Atomic :
    (o : WalOffset) {s u : Head}
    → Reach (new o) s
    → u.stores < 2 ^ 63
    → (st : Step s u) → Atomic s.latest (event_of st) u.latest
Step-Atomic o r few (store_end s p e) = write s.latest p
Step-Atomic o r few (load_end s v a b e) = load_end-Atomic s v a b e (Reach-IsCoherent o r few)
Step-Atomic o r few (store_begin s p e) = nothing s.latest
Step-Atomic o r few (store_segment s p e) = nothing s.latest
Step-Atomic o r few (store_byte s p e) = nothing s.latest
Step-Atomic o r few (load_start s e) = nothing s.latest
Step-Atomic o r few (load_segment s v e) = nothing s.latest
Step-Atomic o r few (load_byte s v a e) = nothing s.latest
Step-Atomic o r few (load_again s p e) = nothing s.latest
