-- ===== src/Wal/Subscription/Commit.antt =====
-- `WalSubscription::commit`: the cursor first, then the segments that are no longer needed.
use ingestion_service.Common.{
  ℕ, ◌≤◌, ◌<◌, ◌≡◌, refl, Bool, true, false, Option, some, List, [], ◌∷◌, Result, ok, err, ltb, leb,
  ◌==◌, if◌then◌else◌, arith, Bool-cases, inl, inr, ◌∙◌, max, ltb→lt, not_ltb→le, not_leb→lt, ◌⊎◌,
}
use ingestion_service.Wal.Types.{WalOffset, WalError, to_bytes}
use ingestion_service.Wal.Cursor.{
  CursorFiles, WriteFault, no_fault, create_failed, write_failed, rename_failed, write_cursor,
}
use ingestion_service.Wal.Segment.{DirEntry, list_segments}
use ingestion_service.Wal.Subscription.{Subscription}

-- The directory as a commit changes it: the cursor's files, and which segments have a file.
pub record Dir : Type 0 where
  pub cursor : CursorFiles
  pub present : ℕ → Bool

-- How the file operations of one commit end: those of `write_cursor`, the listing, and whether a
-- segment's file can be removed (one that is not there counts as removed).
pub record CommitFaults : Type 0 where
  pub writing : WriteFault
  pub listing : Option (List DirEntry)
  pub removable : ℕ → Bool

-- The `for` loop: an id that is not below the bound ends it; a file that cannot be removed stays.
unfoldable pub remove_below : (ℕ → Bool) → ℕ → List ℕ → (ℕ → Bool) → ℕ → Bool
remove_below removable bound [] present = present
remove_below removable bound (id ∷ ids) present =
    let rest =
      remove_below removable bound ids
        (λ j. if (if removable id then j == id else false) then false else present j) in
    if leb bound id then present else rest

-- The directory after the cursor was written.
unfoldable pub collect :
    CommitFaults
    → WalOffset
    → Subscription
    → Result WalError (List ℕ)
    → Dir
    → Result WalError (Unit {0}) × Subscription × Dir
collect f up_to s (err e) d = (err e, s, d)
collect f up_to s (ok ids) d = (
  ok tt,
  record s { last_gc_segment_id = up_to.segment_id },
  record d { present = remove_below f.removable up_to.segment_id ids d.present },
)

-- `commit` behind the cursor's write.
unfoldable pub after_write :
    CommitFaults
    → WalOffset
    → Subscription
    → Dir
    → Result WalError (Unit {0}) × CursorFiles
    → Result WalError (Unit {0}) × Subscription × Dir
after_write f up_to s d (err e, cursor) = (err e, s, record d { cursor = cursor })
after_write f up_to s d (ok _, cursor) =
    let d' = record d { cursor = cursor } in
    if ltb s.last_gc_segment_id up_to.segment_id
    then collect f up_to s (list_segments f.listing) d'
    else (ok tt, s, d')

unfoldable pub commit :
    CommitFaults → WalOffset → Subscription → Dir → Result WalError (Unit {0}) × Subscription × Dir
commit f up_to s d = after_write f up_to s d (write_cursor f.writing up_to d.cursor)

kept :
    (removable : ℕ → Bool) (bound id : ℕ) (present : ℕ → Bool) (j : ℕ)
    → bound ≤ j
    → id < bound
    → (if (if removable id then j == id else false) then false else present j) ≡ present j
kept removable bound id present j h lt = ground arith

-- What is removed is below the bound.
remove_below-keeps :
    (removable : ℕ → Bool) (bound : ℕ) (ids : List ℕ) (present : ℕ → Bool) (j : ℕ)
    → bound ≤ j
    → remove_below removable bound ids present j ≡ present j
unfolding remove_below
remove_below-keeps removable bound [] present j h = refl
remove_below-keeps removable bound (id ∷ ids) present j h =
    let rest =
      remove_below-keeps removable bound ids
        (λ k. if (if removable id then k == id else false) then false else present k) j h in
    elim (Bool-cases (leb bound id)) [
      | inl stop ↦ rw stop refl
      | inr on ↦ rw on (rest ∙ kept removable bound id present j h (not_leb→lt bound id on))
    ]

collect-keeps :
    (f : CommitFaults) (up_to : WalOffset) (s : Subscription) (d : Dir)
    (r : Result WalError (List ℕ)) (j : ℕ)
    → up_to.segment_id ≤ j
    → (collect f up_to s r d).2.present j ≡ d.present j
unfolding collect
collect-keeps f up_to s d (ok ids) j h =
    remove_below-keeps f.removable up_to.segment_id ids d.present j h
collect-keeps f up_to s d (err e) j h = refl

-- The cursor's file after a commit that failed: as it was if the write of the cursor failed, and
-- otherwise, where the listing failed, with the new offset.
abbrev pub LeftBy : CommitFaults → WalOffset → CursorFiles → WalError → CursorFiles → Type 0
LeftBy f up_to files e files' = elim f.writing [
  | no_fault ↦ (list_segments f.listing ≡ err e) × (files'.final ≡ some (to_bytes up_to))
  | create_failed ↦ files'.final ≡ files.final
  | write_failed k ↦ files'.final ≡ files.final
  | rename_failed ↦ files'.final ≡ files.final
]

-- What a commit leaves, by how it ended.
abbrev pub Committed :
    CommitFaults
    → WalOffset
    → Subscription
    → Dir
    → Result WalError (Unit {0}) × Subscription × Dir
    → Type 0
Committed f up_to s d (ok _, s', d') =
    (f.writing ≡ no_fault)
    × (d'.cursor.final ≡ some (to_bytes up_to))
    × (s'.last_gc_segment_id ≡ max s.last_gc_segment_id up_to.segment_id)
    × (s'.segment_id ≡ s.segment_id)
    × (s'.byte_offset ≡ s.byte_offset)
    × (s'.reader ≡ s.reader)
Committed f up_to s d (err e, s', d') =
    (s' ≡ s) × ((j : ℕ) → d'.present j ≡ d.present j) × LeftBy f up_to d.cursor e d'.cursor

collect-Committed :
    (f : CommitFaults) (up_to : WalOffset) (s : Subscription) (d d' : Dir)
    (r : Result WalError (List ℕ))
    → f.writing ≡ no_fault
    → list_segments f.listing ≡ r
    → ltb s.last_gc_segment_id up_to.segment_id ≡ true
    → d'.cursor.final ≡ some (to_bytes up_to)
    → ((j : ℕ) → d'.present j ≡ d.present j)
    → Committed f up_to s d (collect f up_to s r d')
unfolding collect
collect-Committed f up_to s d d' (ok ids) wrote listed new c same =
    (wrote, c, omega (arith, ltb→lt s.last_gc_segment_id up_to.segment_id new), refl, refl, refl)
collect-Committed f up_to s d d' (err e) wrote listed new c same =
    (refl, same, ground (arith, wrote, listed, c))

-- Behind a write of the cursor that succeeded.
written-Committed :
    (f : CommitFaults) (up_to : WalOffset) (s : Subscription) (d : Dir) (files : CursorFiles)
    → f.writing ≡ no_fault
    → files.final ≡ some (to_bytes up_to)
    → Committed f up_to s d (after_write f up_to s d (ok tt, files))
unfolding after_write
written-Committed f up_to s d files wrote c =
    elim (Bool-cases (ltb s.last_gc_segment_id up_to.segment_id)) [
      | inl new ↦ rw new (
          collect-Committed f up_to s d (record d { cursor = files }) (list_segments f.listing)
            wrote refl new c (λ j. refl))
      | inr old ↦ rw old (
        wrote,
        c,
        omega (arith, not_ltb→le s.last_gc_segment_id up_to.segment_id old),
        refl,
        refl,
        refl,
      )
    ]

-- How the operations of the cursor's write end.
WriteFault-cases :
    (w : WriteFault)
    → (w ≡ no_fault)
      ⊎ ((w ≡ create_failed) ⊎ (((k : ℕ) × (w ≡ write_failed k)) ⊎ (w ≡ rename_failed)))
WriteFault-cases no_fault = inl refl
WriteFault-cases create_failed = inr (inl refl)
WriteFault-cases (write_failed k) = inr (inr (inl (k, refl)))
WriteFault-cases rename_failed = inr (inr (inr refl))

-- A commit that succeeds has written the cursor's file with the offset, and remembers the largest
-- segment it has collected up to. One that fails leaves the subscription and the segments as they
-- were; the cursor's file is the old one if its write failed, at whichever step, and it holds the new
-- offset if only the listing failed, whose error the commit then returns.
pub commit-Committed :
    (f : CommitFaults) (up_to : WalOffset) (s : Subscription) (d : Dir)
    → Committed f up_to s d (commit f up_to s d)
unfolding commit write_cursor after_write
commit-Committed f up_to s d = elim (WriteFault-cases f.writing) [
  | inl w ↦ rw w (written-Committed (record f { writing = no_fault }) up_to s d _ refl refl)
  | inr (inl w) ↦ rw w (refl, λ j. refl, refl)
  | inr (inr (inl (k, w))) ↦ rw w (refl, λ j. refl, refl)
  | inr (inr (inr w)) ↦ rw w (refl, λ j. refl, refl)
]

after_write-keeps :
    (f : CommitFaults) (up_to : WalOffset) (s : Subscription) (d : Dir)
    (w : Result WalError (Unit {0}) × CursorFiles) (j : ℕ)
    → up_to.segment_id ≤ j
    → (after_write f up_to s d w).2.present j ≡ d.present j
unfolding after_write
after_write-keeps f up_to s d (err e, files) j h = refl
after_write-keeps f up_to s d (ok u, files) j h =
    elim (Bool-cases (ltb s.last_gc_segment_id up_to.segment_id)) [
      | inl new ↦
          rw new
            (collect-keeps f up_to s (record d { cursor = files }) (list_segments f.listing) j h)
      | inr old ↦ rw old refl
    ]

-- However its file operations end, a commit removes no segment from the committed one on.
pub commit-keeps :
    (f : CommitFaults) (up_to : WalOffset) (s : Subscription) (d : Dir) (j : ℕ)
    → up_to.segment_id ≤ j
    → (commit f up_to s d).2.present j ≡ d.present j
unfolding commit
commit-keeps f up_to s d j h =
    after_write-keeps f up_to s d (write_cursor f.writing up_to d.cursor) j h
