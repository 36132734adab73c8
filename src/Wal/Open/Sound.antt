-- ===== src/Wal/Open/Sound.antt =====
-- What the parts of a start leave: the healed segment, and what a successful start was made of.
use ingestion_service.Common.{
  ℕ, ◌≤◌, ◌<◌, ◌≡◌, ◌≢◌, refl, sym, ap, subst, ◌∙◌, ◌⊎◌, inl, inr, Option, none, some, List, [],
  ◌∷◌, ◌++◌, Result, ok, err, length, take, length-append, take-append_length, append-nil, arith,
  All,
}
use ingestion_service.Wal.Bytes.{IsByte}
use ingestion_service.Wal.Types.{WalOffset, WalOptions, WalError}
use ingestion_service.Wal.Codec.{Bincode, at_eof}
use ingestion_service.Wal.Codec.Frames.{IsPayload}
use ingestion_service.Wal.Recover.{last_valid_offset, truncate_to}
use ingestion_service.Wal.Recover.Scan.{frames, IsTorn, last_valid_offset-frames}
use ingestion_service.Wal.Segment.{DirEntry}
use ingestion_service.Wal.Segment.Listing.{IsSorted, count, files_of}
use ingestion_service.Wal.Cursor.{CursorFiles, read_cursor}
use ingestion_service.Wal.Writer.{Writer}
use ingestion_service.Wal.Writer.BufWriter.{set_file, contents}
use ingestion_service.Wal.Writer.Loop.{spawn_writer}
use ingestion_service.Wal.Subscription
use ingestion_service.Wal.Subscription.{Subscription}
use ingestion_service.Wal.Open.{
  Disk, Faults, reads, last, unwrap_or, opened_as, heal, heal_scanned, recover_segment,
  recover_active, read_start, spawned, spawn, finish_open,
}

-- A segment after recovery: its whole frames stay, a torn rest is gone, and no other file changes.
abbrev pub Recovered : Disk → ℕ → ℕ → Disk → Type 0
Recovered disk id len disk' =
    (ps : List (List ℕ)) × (t : List ℕ) × All IsPayload ps
    × IsTorn t
    × (contents (disk id) ≡ frames ps ++ t)
    × (contents (disk' id) ≡ frames ps)
    × (len ≡ length (frames ps))
    × ((i : ℕ) → i ≢ id → disk' i ≡ disk i)

heal-inv :
    (f : Faults) (id id' len : ℕ) (bytes : List ℕ) (disk disk' : Disk) (valid : ℕ)
    → heal f id bytes disk valid ≡ (ok (id', len), disk')
    → (id' ≡ id)
      × (len ≡ valid)
      × (((valid < length bytes) × (disk' ≡ set_file disk id (take valid bytes)))
          ⊎ ((length bytes ≤ valid) × (disk' ≡ disk)))
unfolding heal truncate_to
heal-inv f id id' len bytes disk disk' valid h = ground arith

set_file_self : (disk : Disk) (id : ℕ) (b : List ℕ) → set_file disk id b id ≡ some b
set_file_self disk id b = ground arith

set_file_ne : (disk : Disk) (id : ℕ) (b : List ℕ) (i : ℕ) → i ≢ id → set_file disk id b i ≡ disk i
set_file_ne disk id b i h = ground arith

nil_of_length : (t : List ℕ) → length t ≡ 0 → t ≡ []
nil_of_length [] h = refl
nil_of_length (x ∷ t) h = absurd (omega arith)

heal-Recovered :
    (f : Faults) (id id' len : ℕ) (bytes : List ℕ) (disk disk' : Disk) (ps : List (List ℕ))
    (t : List ℕ)
    → disk id ≡ some bytes
    → All IsPayload ps
    → IsTorn t
    → bytes ≡ frames ps ++ t
    → heal f id bytes disk (length (frames ps)) ≡ (ok (id', len), disk')
    → (id' ≡ id) × Recovered disk id len disk'
heal-Recovered f id id' len bytes disk disk' ps t there payloads torn e h =
    let (same, width, cases) = heal-inv f id id' len bytes disk disk' (length (frames ps)) h in
    let before : contents (disk id) ≡ frames ps ++ t = ap contents there ∙ e in
    (
      same,
      elim cases [
        | inl (cut, d) ↦ (
          ps,
          t,
          payloads,
          torn,
          before,
          ap (λ (k : Disk). contents (k id)) d
              ∙ ap contents (set_file_self disk id (take (length (frames ps)) bytes))
              ∙ ap (λ l. take (length (frames ps)) l) e
              ∙ take-append_length (frames ps) t,
          width,
          λ i ne.
              ap (λ (k : Disk). k i) d ∙ set_file_ne disk id (take (length (frames ps)) bytes) i ne,
        )
        | inr (whole, d) ↦
            let empty : t ≡ [] =
              nil_of_length t (omega (arith, ap length e, length-append (frames ps) t)) in
            (
              ps,
              t,
              payloads,
              torn,
              before,
              ap (λ (k : Disk). contents (k id)) d
                  ∙ before
                  ∙ ap (λ l. frames ps ++ l) empty
                  ∙ append-nil (frames ps),
              width,
              λ i ne. ap (λ (k : Disk). k i) d,
            )
      ],
    )

-- The files are bytes, and each file of the directory is in the listing.
abbrev pub IsReadable : Faults → Disk → Type 0
IsReadable f disk =
    (f.scanning ≡ reads at_eof) × ((i : ℕ) (b : List ℕ) → disk i ≡ some b → All IsByte b)

recover_segment-Recovered :
    (bc : Bincode) (f : Faults) (id id' len : ℕ) (disk disk' : Disk) (o : Option (List ℕ))
    → IsReadable f disk
    → disk id ≡ o
    → recover_segment bc f id disk o ≡ some (ok (id', len), disk')
    → (id' ≡ id) × Recovered disk id len disk'
unfolding recover_segment heal_scanned
recover_segment-Recovered bc f id id' len disk disk' none ok_files there h = cc
recover_segment-Recovered bc f id id' len disk disk' (some bytes) (eof, all_bytes) there h =
    let (ps, t, payloads, torn, e, scanned, _) =
      last_valid_offset-frames bc bytes (all_bytes id bytes there) in
    let found : last_valid_offset bc (opened_as f.scanning bytes) ≡ some (ok (length (frames ps))) =
      ap (λ x. last_valid_offset bc (opened_as x bytes)) eof ∙ scanned in
    heal-Recovered f id id' len bytes disk disk' ps t there payloads torn e
      (ground (arith, found, h))

-- Every file of the directory is in the listing.
abbrev pub Shows : List DirEntry → Disk → Type 0
Shows entries disk = (i : ℕ) → files_of i entries ≡ 0 → disk i ≡ none

-- The active segment is at or behind every segment.
abbrev Bounds : ℕ → Option ℕ → Type 0
Bounds a none = Unit
Bounds a (some id) = a ≤ id

pub recover_active-Recovered :
    (bc : Bincode) (f : Faults) (id len : ℕ) (disk disk' : Disk) (o : Option ℕ)
    → IsReadable f disk
    → ((o ≡ none) → disk 1 ≡ none)
    → recover_active bc f disk o ≡ some (ok (id, len), disk')
    → (unwrap_or o 1 ≡ id) × Recovered disk id len disk'
unfolding recover_active
recover_active-Recovered bc f id len disk disk' none readable empty h =
    let (id1, len0, same) : (id ≡ 1) × (len ≡ 0) × (disk' ≡ disk) =
      (ground arith, ground arith, ground arith) in
    let blank : contents (disk id) ≡ [] =
      ap (λ k. contents (disk k)) id1 ∙ ap contents (empty refl) in
    (
      sym id1,
      (
        [],
        [],
        tt,
        inl (omega arith),
        blank,
        ap (λ (k : Disk). contents (k id)) same ∙ blank,
        len0,
        λ i ne. ap (λ (k : Disk). k i) same,
      ),
    )
recover_active-Recovered bc f id len disk disk' (some a) readable empty h =
    let (same, rec_) =
      recover_segment-Recovered bc f a id len disk disk' (disk a) readable refl h in
    (sym same, subst (λ k. Recovered disk k len disk') (sym same) rec_)

pub head-le-last : (y a : ℕ) (ids : List ℕ) → IsSorted (y ∷ ids) → last (y ∷ ids) ≡ some a → y ≤ a
head-le-last y a [] s h = ground arith
head-le-last y a (z ∷ ids) (below, s) h = omega (arith, head-le-last z a ids s h, below.0)

pub last-max : (ids : List ℕ) (a i : ℕ) → IsSorted ids → last ids ≡ some a → a < i → count i ids ≡ 0
last-max [] a i s h lt = refl
last-max (x ∷ []) a i s h lt = ground arith
last-max (x ∷ y ∷ ids) a i (below, s) h lt =
    ground (arith, last-max (y ∷ ids) a i s h lt, head-le-last y a ids s h)

spawned-inv :
    (start : WalOffset) (d : Disk) (o : Option Writer) (w : Writer) (s : Subscription)
    (disk' : Disk)
    → spawned start d o ≡ (ok (w, s), disk')
    → (o ≡ some w) × (s ≡ Subscription.new start) × (disk' ≡ w.disk)
unfolding spawned
spawned-inv start d none w s disk' h = cc
spawned-inv start d (some v) w s disk' h = ground arith

spawn-inv :
    (f : Faults) (options : WalOptions) (now id len : ℕ) (d : Disk) (r : Result WalError WalOffset)
    (w : Writer) (s : Subscription) (disk' : Disk)
    → spawn f options now id len d r ≡ (ok (w, s), disk')
    → (start : WalOffset) × (r ≡ ok start)
      × ((spawn_writer f.writer_opens d id len options.segment_bytes now ≡ some w)
          × (s ≡ Subscription.new start)
          × (disk' ≡ w.disk))
unfolding spawn
spawn-inv f options now id len d (err x) w s disk' h = cc
spawn-inv f options now id len d (ok start) w s disk' h =
    (start, refl, spawned-inv start d _ w s disk' h)

pub finish_open-inv :
    (f : Faults) (options : WalOptions) (now : ℕ) (ids : List ℕ) (cursor : CursorFiles)
    (o : Option (Result WalError (ℕ × ℕ) × Disk)) (w : Writer) (s : Subscription) (disk' : Disk)
    → finish_open f options now ids cursor o ≡ some (ok (w, s), disk')
    → (id : ℕ) × (len : ℕ) × (d : Disk) × (o ≡ some (ok (id, len), d))
      × (start : WalOffset) × (read_start ids id (read_cursor f.cursor cursor) ≡ ok start)
      × ((spawn_writer f.writer_opens d id len options.segment_bytes now ≡ some w)
          × (s ≡ Subscription.new start)
          × (disk' ≡ w.disk))
unfolding finish_open
finish_open-inv f options now ids cursor none w s disk' h = cc
finish_open-inv f options now ids cursor (some (err x, d)) w s disk' h = cc
finish_open-inv f options now ids cursor (some (ok (id, len), d)) w s disk' h =
    let (start, e, rest) =
      spawn-inv f options now id len d (read_start ids id (read_cursor f.cursor cursor)) w s disk'
        (cc h) in
    (id, len, d, refl, start, e, rest)
