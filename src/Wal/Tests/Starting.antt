-- ===== src/Wal/Tests/Starting.antt =====
-- A start on one segment with a torn tail, and the accesses of the seqlock.
use ingestion_service.Common.{
  ℕ, suc, ◌+◌, length, ◌≡◌, refl, subst, none, some, List, [], ◌∷◌, ok, true, false, arith, ◌==◌,
  if◌then◌else◌, Bool-cases, inl, inr, All,
}
use ingestion_service.Wal.Bytes.{IsByte, from_le_bytes}
use ingestion_service.Wal.Types.{WalOptions}
use ingestion_service.Wal.Codec.{
  at_eof, Reader, decode_for_recovery, recover_length, recover_payload, over_limit, read_exact,
}
use ingestion_service.Wal.Recover.{file, last_valid_offset, scan, truncate_to}
use ingestion_service.Wal.Writer.Loop.{spawn_writer}
use ingestion_service.Wal.Subscription
use ingestion_service.Wal.Segment.{
  named, segment_filename, list_segments, segment_ids, sort, insert_sorted, parse_segment_id,
  padded_digits, strip_suffix, parse_u64, parse_digits,
}
use ingestion_service.Wal.Cursor.{CursorFiles, OpenFault, read_cursor}
use ingestion_service.Wal.Writer.{Writer}
use ingestion_service.Wal.Writer.BufWriter.{set_file}
use ingestion_service.Wal.Subscription.{Subscription}
use ingestion_service.Wal.Open.{
  Disk, Faults, reads, open_wal, open_listed, finish_open, spawn, spawned, read_start,
  recover_active, recover_segment, heal_scanned, heal,
}
use ingestion_service.Wal.Open.Total.{Ends, open_wal-Ends}
use ingestion_service.Wal.Open.Sound.{IsReadable, Shows}
use ingestion_service.Wal.Open.Restart.{Restarted, open_wal-Restarted}
use ingestion_service.Wal.Head.{
  Head, even, with_segment, with_both, returned, check_start, check_end, new, Reach, here, next,
  Step, load_start, load_segment, load_byte, load_end,
}
use ingestion_service.Wal.Head.Coherent.{Atomic, event_of, Step-Atomic}
use ingestion_service.Wal.Tests.{plain, offset_at}

abbrev healed : List ℕ
healed = 2 ∷ 0 ∷ 0 ∷ 0 ∷ 65 ∷ 66 ∷ []

abbrev torn : List ℕ
torn = 2 ∷ 0 ∷ 0 ∷ 0 ∷ 65 ∷ 66 ∷ 9 ∷ 0 ∷ []

abbrev left : Disk
left j = if 1 == j then some torn else none

abbrev no_faults : Faults
no_faults = record {
  creates_dir = true;
  listing = some (named (segment_filename 1) ∷ []);
  stats = true;
  scanning = reads at_eof;
  truncate_opens = true;
  truncate_resizes = true;
  cursor = OpenFault.no_fault;
  writer_opens = true;
}

abbrev options : WalOptions
options = record { segment_bytes = 10; queue_capacity = 4 }

abbrev no_cursor : CursorFiles
no_cursor = record { final = none; tmp = none }

abbrev torn_reader : Reader
torn_reader = record { rest = torn; ending = at_eof }

open_wal-Ends_example :
    Ends (open_wal plain no_faults options 0 left no_cursor)
    × (scan plain (5 + suc (length torn)) 0 torn_reader
        ≡ last_valid_offset plain (file torn_reader))
open_wal-Ends_example = open_wal-Ends plain no_faults options 0 left no_cursor torn_reader 5

abbrev restarted : Writer
restarted = record {
  segment_id = 1;
  byte_offset = 6;
  segment_bytes = 10;
  buffer = [];
  disk = set_file (set_file left 1 healed) 1 healed;
  head = offset_at 1 6;
  notified = 0;
  pending = [];
  dirty = false;
  flush_deadline = 0;
  sent = [];
}

abbrev subscribed : Subscription
subscribed = record { segment_id = 1; byte_offset = 0; reader = none; last_gc_segment_id = 0 }

torn_bytes : All IsByte torn
torn_bytes = ground arith

parsed : parse_segment_id (segment_filename 1) ≡ some 1
unfolding parse_segment_id segment_filename padded_digits strip_suffix parse_u64 parse_digits
parsed = refl

left-IsReadable : IsReadable no_faults left
left-IsReadable = (
  refl,
  λ i b h. elim (Bool-cases (1 == i)) [
    | inl e ↦
        let same : torn ≡ b = ground (arith, e, h) in subst (λ l. All IsByte l) same torn_bytes
    | inr e ↦ ground (arith, e, h)
  ],
)

left_shown : Shows (named (segment_filename 1) ∷ []) left
left_shown i h = ground (arith, parsed, h)

left_opened :
    open_wal plain no_faults options 0 left no_cursor
    ≡ some (ok (restarted, subscribed), restarted.disk)
unfolding open_wal open_listed finish_open spawn spawned read_start recover_active recover_segment
    heal_scanned heal spawn_writer last_valid_offset scan decode_for_recovery recover_length
    recover_payload over_limit truncate_to read_cursor list_segments segment_ids sort insert_sorted
    parse_segment_id segment_filename padded_digits strip_suffix parse_u64 parse_digits
    Subscription.new read_exact from_le_bytes
left_opened = refl

open_wal-Restarted_example :
    (ids : List ℕ) × (list_segments no_faults.listing ≡ ok ids)
    × Restarted
        (λ a. healed)
        ids
        left
        (read_cursor OpenFault.no_fault no_cursor)
        restarted
        subscribed
open_wal-Restarted_example =
    open_wal-Restarted (λ a. healed) plain no_faults options 0 left restarted.disk no_cursor
      (named (segment_filename 1) ∷ []) restarted subscribed left-IsReadable refl left_shown
      left_opened

-- A store that has begun, and a load whose versions agree all the same, since both were read before.
abbrev first_offset : Head
first_offset = new (offset_at 1 0)

loading :
    Step
      (record first_offset { reader = with_both 0 1 0 })
      (record first_offset { reader = returned (offset_at 1 0) })
unfolding new check_end
loading = load_end (record first_offset { reader = with_both 0 1 0 }) 0 1 0 refl

loads : Reach (new (offset_at 1 0)) (record first_offset { reader = with_both 0 1 0 })
unfolding new check_start
loads =
    next
      (next (next here (load_start first_offset refl))
        (load_segment (record first_offset { reader = even 0 }) 0 refl))
      (load_byte (record first_offset { reader = with_segment 0 1 }) 0 1 refl)

Step-Atomic_example : Atomic (offset_at 1 0) (event_of loading) (offset_at 1 0)
unfolding new
Step-Atomic_example = Step-Atomic (offset_at 1 0) loads (omega arith) loading
