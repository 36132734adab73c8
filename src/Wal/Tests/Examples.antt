-- ===== src/Wal/Tests/Examples.antt =====
-- The properties of the log's code on concrete data.
use ingestion_service.Common.{
  ℕ, ◌<◌, ◌^◌, ◌≡◌, refl, ◌⊎◌, true, none, some, List, [], ◌∷◌, ◌++◌, ok, err, length, All, arith,
}
use ingestion_service.Wal.Bytes.{to_le_bytes, from_le_bytes}
use ingestion_service.Wal.Types.{IsU64Offset, io, to_bytes}
use ingestion_service.Wal.Codec.{
  at_eof, encode_into, decode_into, decode_for_recovery, valid_record, clean_eof,
}
use ingestion_service.Wal.Codec.Frames.{reader, IsPayload}
use ingestion_service.Wal.Codec.RoundTrip.{decode-encode, decode_cut}
use ingestion_service.Wal.Codec.Agreement.{Agrees, decode-Agrees}
use ingestion_service.Wal.Recover.{file, last_valid_offset, truncate_to}
use ingestion_service.Wal.Recover.Scan.{frames, IsTorn, last_valid_offset-frames}
use ingestion_service.Wal.Segment.{
  DirEntry, named, not_utf8, list_segments, segment_ids, insert_sorted, sort, padded_digits,
  strip_suffix, parse_digits, parse_u64, parse_segment_id, segment_filename,
}
use ingestion_service.Wal.Segment.Listing.{IsSorted, count, files_of, list_segments_lem}
use ingestion_service.Wal.Cursor.{
  CursorFiles, OpenFault, write_failed, read_cursor, write_cursor, read_cursor-write_cursor,
}
use ingestion_service.Wal.Tests.{plain, plain_event, offset_at}

-- `encode_into` of the payload "AB".
abbrev two : List ℕ
two = 65 ∷ 66 ∷ []

abbrev record_of_two : List ℕ
record_of_two = 2 ∷ 0 ∷ 0 ∷ 0 ∷ 65 ∷ 66 ∷ []

two_encoded : encode_into plain (plain_event two) ≡ ok record_of_two
unfolding encode_into to_le_bytes
two_encoded = refl

decode-encode_example :
    (decode_into plain (reader (record_of_two ++ (7 ∷ [])) at_eof)
      ≡ (ok (some (plain_event two, 6)), reader (7 ∷ []) at_eof))
    × (decode_for_recovery plain (reader (record_of_two ++ (7 ∷ [])) at_eof)
        ≡ (ok (valid_record (plain_event two) 6), reader (7 ∷ []) at_eof))
decode-encode_example =
    decode-encode plain (plain_event two) record_of_two (7 ∷ []) at_eof two_encoded (omega arith)

decode_cut_example :
    (decode_into plain (reader (2 ∷ 0 ∷ 0 ∷ 0 ∷ 65 ∷ []) at_eof) ≡ (ok none, reader [] at_eof))
    × (decode_for_recovery plain (reader (2 ∷ 0 ∷ 0 ∷ 0 ∷ 65 ∷ []) at_eof)
        ≡ (ok clean_eof, reader [] at_eof))
decode_cut_example =
    decode_cut plain (plain_event two) record_of_two (2 ∷ 0 ∷ 0 ∷ 0 ∷ 65 ∷ []) [] 66 two_encoded
      (omega arith) refl

decode-Agrees_example :
    Agrees record_of_two
      (decode_into plain (reader record_of_two at_eof)).0
      (decode_for_recovery plain (reader record_of_two at_eof)).0
    × ((decode_into plain (reader record_of_two at_eof)).1
        ≡ (decode_for_recovery plain (reader record_of_two at_eof)).1)
decode-Agrees_example = decode-Agrees plain (reader record_of_two at_eof)

two_recovered :
    (decode_for_recovery plain (reader record_of_two at_eof)).0
    ≡ ok (valid_record (plain_event two) 6)
unfolding decode_for_recovery from_le_bytes
two_recovered = refl

-- A whole record and the first byte of another.
abbrev torn_file : List ℕ
torn_file = record_of_two ++ (9 ∷ [])

last_valid_offset-frames_example :
    (ps : List (List ℕ)) × (t : List ℕ) × All IsPayload ps
    × IsTorn t
    × (torn_file ≡ frames ps ++ t)
    × (last_valid_offset plain (file (reader torn_file at_eof)) ≡ some (ok (length (frames ps))))
    × (truncate_to true true (length (frames ps)) torn_file ≡ (ok tt, frames ps))
last_valid_offset-frames_example = last_valid_offset-frames plain torn_file (
  omega arith,
  (omega arith, (omega arith, (omega arith, (omega arith, (omega arith, (omega arith, tt)))))),
)

abbrev entries_of_two : List DirEntry
entries_of_two = named (segment_filename 7) ∷ not_utf8 ∷ named (segment_filename 3) ∷ []

two_listed : list_segments (some entries_of_two) ≡ ok (3 ∷ 7 ∷ [])
unfolding list_segments segment_ids sort insert_sorted parse_segment_id segment_filename
    padded_digits strip_suffix parse_digits parse_u64
two_listed = refl

list_segments_lem_example :
    IsSorted (3 ∷ 7 ∷ []) × ((a : ℕ) → count a (3 ∷ 7 ∷ []) ≡ files_of a entries_of_two)
list_segments_lem_example = list_segments_lem entries_of_two (3 ∷ 7 ∷ []) two_listed

abbrev fits : (a b : ℕ) → a < 2 ^ 64 → b < 2 ^ 64 → IsU64Offset (offset_at a b)
fits a b h k = record { segment_id_fits = h; byte_offset_fits = k }

abbrev old_cursor : CursorFiles
old_cursor = record { final = some (to_bytes (offset_at 1 6)); tmp = some (9 ∷ []) }

read_cursor-write_cursor_example :
    (((write_cursor (write_failed 5) (offset_at 3 500) old_cursor).0 ≡ ok tt)
      × (read_cursor OpenFault.no_fault
            (write_cursor (write_failed 5) (offset_at 3 500) old_cursor).1
          ≡ ok (some (offset_at 3 500))))
    ⊎ (((write_cursor (write_failed 5) (offset_at 3 500) old_cursor).0 ≡ err io)
        × ((x : OpenFault)
            → read_cursor x (write_cursor (write_failed 5) (offset_at 3 500) old_cursor).1
              ≡ read_cursor x old_cursor))
read_cursor-write_cursor_example =
    read_cursor-write_cursor (write_failed 5) (offset_at 3 500) old_cursor
      (fits 3 500 (omega arith) (omega arith))
