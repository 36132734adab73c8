-- ===== src/Wal/Writer/BufWriter.antt =====
-- `BufWriter<File>` as writer.rs uses it: `flush`, `write_all` and its drop, over a file that is open
-- for appending.
use ingestion_service.Common.{
  ℕ, ◌-◌, ◌*◌, Bool, true, false, Option, none, some, List, [], ◌++◌, length, take, drop, ltb, leb,
  ◌==◌, if◌then◌else◌,
}
use ingestion_service.Wal.Writer.{Writer, Fault}

abbrev pub capacity : ℕ
capacity = 64 * 1024

abbrev pub set_file : (ℕ → Option (List ℕ)) → ℕ → List ℕ → ℕ → Option (List ℕ)
set_file disk id bytes j = if id == j then some bytes else disk j

abbrev pub contents : Option (List ℕ) → List ℕ
contents none = []
contents (some bytes) = bytes

-- `File::write_all` on a file that is open for appending: it fails if it stops before the last byte.
unfoldable pub append : Fault → List ℕ → Writer → Bool × Writer
append none bytes w = (
  true,
  record w { disk = set_file w.disk w.segment_id (contents (w.disk w.segment_id) ++ bytes) },
)
append (some k) bytes w =
    if ltb k (length bytes)
    then (
      false,
      record w {
        disk = set_file w.disk w.segment_id (contents (w.disk w.segment_id) ++ take k bytes);
      },
    )
    else (
      true,
      record w { disk = set_file w.disk w.segment_id (contents (w.disk w.segment_id) ++ bytes) },
    )

-- What the file took leaves the buffer, also where the write stopped.
unfoldable pub flush : Fault → Writer → Bool × Writer
unfolding append
flush fault w =
    let (written, w') = append fault w.buffer w in
    if written
    then (true, record w' { buffer = [] })
    else (false, record w' { buffer = elim fault [ none ↦ [] | some k ↦ drop k w.buffer ] })

-- Room for what comes: the buffer is written out, unless what comes fills it exactly or less.
unfoldable pub make_room : Fault → List ℕ → Writer → Bool × Writer
make_room fault bytes w =
    if ltb (capacity - length w.buffer) (length bytes) then flush fault w else (true, w)

-- What is as long as the buffer goes to the file at once.
unfoldable pub write_cold : Fault → List ℕ → Bool × Writer → Bool × Writer
write_cold fault bytes (true, w) =
    if leb capacity (length bytes)
    then append fault bytes w
    else (true, record w { buffer = w.buffer ++ bytes })
write_cold fault bytes (false, w) = (false, w)

unfoldable pub write_all : Fault → Fault → List ℕ → Writer → Bool × Writer
write_all flush_fault direct_fault bytes w =
    if ltb (length bytes) (capacity - length w.buffer)
    then (true, record w { buffer = w.buffer ++ bytes })
    else write_cold direct_fault bytes (make_room flush_fault bytes w)
