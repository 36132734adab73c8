-- ===== src/Wal/Open.antt =====
-- `Wal::open` of src/infrastructure/wal/wal.rs: what a start makes of the files that the last run
-- left.
pub mod Total
pub mod Sound
pub mod Restart
use ingestion_service.Common.{
  ℕ, Bool, true, false, ◌||◌, Option, none, some, List, [], ◌∷◌, Result, ok, err, length, ltb,
  if◌then◌else◌,
}
use ingestion_service.Wal.Types.{WalOffset, WalOptions, WalError, io, not_found, cursor_outside}
use ingestion_service.Wal.Codec.{Bincode, Reader, Ending}
use ingestion_service.Wal.Recover.{Opened, file, missing, refused, last_valid_offset, truncate_to}
use ingestion_service.Wal.Segment.{DirEntry, list_segments}
use ingestion_service.Wal.Cursor.{CursorFiles, OpenFault, read_cursor}
use ingestion_service.Wal.Writer.{Writer}
use ingestion_service.Wal.Writer.BufWriter.{set_file}
use ingestion_service.Wal.Writer.Loop.{spawn_writer}
use ingestion_service.Wal.Subscription
use ingestion_service.Wal.Subscription.{Subscription}

-- The segment files by their ids.
abbrev pub Disk : Type 0
Disk = ℕ → Option (List ℕ)

-- How the scan of the last segment opens it, and what it meets behind its last byte.
pub data Scanning : Type 0 where
  reads : Ending → Scanning
  vanishes refuses : Scanning

-- How the file operations of one start end.
pub record Faults : Type 0 where
  pub creates_dir : Bool
  pub listing : Option (List DirEntry)
  pub stats : Bool
  pub scanning : Scanning
  pub truncate_opens : Bool
  pub truncate_resizes : Bool
  pub cursor : OpenFault
  pub writer_opens : Bool

abbrev pub first : List ℕ → Option ℕ
first [] = none
first (id ∷ ids) = some id

abbrev pub last : List ℕ → Option ℕ
last [] = none
last (id ∷ []) = some id
last (id ∷ id' ∷ ids) = last (id' ∷ ids)

abbrev pub unwrap_or : Option ℕ → ℕ → ℕ
unwrap_or none d = d
unwrap_or (some a) d = a

abbrev pub opened_as : Scanning → List ℕ → Opened
opened_as (reads ending) bytes = file (record { rest = bytes; ending = ending })
opened_as vanishes bytes = missing
opened_as refuses bytes = refused

-- The truncation of a torn tail, where there is one: the active segment and its length, and the files.
unfoldable pub heal : Faults → ℕ → List ℕ → Disk → ℕ → Result WalError (ℕ × ℕ) × Disk
heal f id bytes disk valid =
    if ltb valid (length bytes)
    then (let (done_, bytes') = truncate_to f.truncate_opens f.truncate_resizes valid bytes in
        elim done_ [ ok _ ↦ (ok (id, valid), set_file disk id bytes') | err e ↦ (err e, disk) ])
    else (ok (id, valid), disk)

unfoldable pub heal_scanned :
    Faults
    → ℕ
    → List ℕ
    → Disk
    → Option (Result WalError ℕ)
    → Option (Result WalError (ℕ × ℕ) × Disk)
heal_scanned f id bytes disk none = none
heal_scanned f id bytes disk (some (err e)) = some (err e, disk)
heal_scanned f id bytes disk (some (ok valid)) = some (heal f id bytes disk valid)

-- `fs::metadata` and the scan of the last segment.
unfoldable pub recover_segment :
    Bincode → Faults → ℕ → Disk → Option (List ℕ) → Option (Result WalError (ℕ × ℕ) × Disk)
recover_segment bc f id disk none = some (err not_found, disk)
recover_segment bc f id disk (some bytes) =
    if f.stats
    then heal_scanned f id bytes disk (last_valid_offset bc (opened_as f.scanning bytes))
    else some (err io, disk)

-- The first `match` of `open`.
unfoldable pub recover_active :
    Bincode → Faults → Disk → Option ℕ → Option (Result WalError (ℕ × ℕ) × Disk)
recover_active bc f disk none = some (ok (1, 0), disk)
recover_active bc f disk (some id) = recover_segment bc f id disk (disk id)

-- The second `match` of `open`.
unfoldable pub read_start :
    List ℕ → ℕ → Result WalError (Option WalOffset) → Result WalError WalOffset
read_start ids active (err e) = err e
read_start ids active (ok none) =
    ok (record { segment_id = unwrap_or (first ids) active; byte_offset = 0 })
read_start ids active (ok (some off)) =
    if ltb off.segment_id (unwrap_or (first ids) active) || ltb active off.segment_id
    then err (cursor_outside off)
    else ok off

-- What `open` gives: the writer that runs behind the queue, and the subscription.
abbrev pub Handles : Type 0
Handles = Result WalError (Writer × Subscription)

unfoldable pub spawned : WalOffset → Disk → Option Writer → Handles × Disk
spawned start disk none = (err io, disk)
spawned start disk (some w) = (ok (w, Subscription.new start), w.disk)

unfoldable pub spawn :
    Faults → WalOptions → ℕ → ℕ → ℕ → Disk → Result WalError WalOffset → Handles × Disk
spawn f options now id len disk (err e) = (err e, disk)
spawn f options now id len disk (ok start) =
    spawned start disk (spawn_writer f.writer_opens disk id len options.segment_bytes now)

-- `open` behind the first `match`.
unfoldable pub finish_open :
    Faults
    → WalOptions
    → ℕ
    → List ℕ
    → CursorFiles
    → Option (Result WalError (ℕ × ℕ) × Disk)
    → Option (Handles × Disk)
finish_open f options now ids cursor none = none
finish_open f options now ids cursor (some (err e, disk)) = some (err e, disk)
finish_open f options now ids cursor (some (ok (id, len), disk)) =
    some (spawn f options now id len disk (read_start ids id (read_cursor f.cursor cursor)))

unfoldable pub open_listed :
    Bincode
    → Faults
    → WalOptions
    → ℕ
    → Disk
    → CursorFiles
    → Result WalError (List ℕ)
    → Option (Handles × Disk)
open_listed bc f options now disk cursor (err e) = some (err e, disk)
open_listed bc f options now disk cursor (ok ids) =
    finish_open f options now ids cursor (recover_active bc f disk (last ids))

-- What it gives, and the segment files that it leaves; `none` would be a scan that does not end.
unfoldable pub open_wal :
    Bincode → Faults → WalOptions → ℕ → Disk → CursorFiles → Option (Handles × Disk)
open_wal bc f options now disk cursor =
    if f.creates_dir
    then open_listed bc f options now disk cursor (list_segments f.listing)
    else some (err io, disk)
