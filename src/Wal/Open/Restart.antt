-- ===== src/Wal/Open/Restart.antt =====
-- That the writer which a start gives takes up where the last run's files end.
use ingestion_service.Common.{
  ℕ, ◌≤◌, ◌<◌, ◌≡◌, ◌≢◌, refl, sym, ap, subst, ◌∙◌, inl, inr, Bool, true, false, Option, none, some,
  List, [], ◌∷◌, ◌++◌, Result, ok, err, length, arith, All, Option-cases, Result-cases,
}
use ingestion_service.Wal.Types.{WalOffset, WalOptions, WalError}
use ingestion_service.Wal.Codec.{Bincode}
use ingestion_service.Wal.Codec.Frames.{IsPayload}
use ingestion_service.Wal.Recover.Scan.{frames, IsTorn}
use ingestion_service.Wal.Segment.{DirEntry, list_segments}
use ingestion_service.Wal.Segment.Listing.{IsSorted, count, files_of, list_segments_lem}
use ingestion_service.Wal.Cursor.{CursorFiles, read_cursor}
use ingestion_service.Wal.Writer.{Writer}
use ingestion_service.Wal.Writer.BufWriter.{set_file, contents}
use ingestion_service.Wal.Writer.Loop.{spawn_writer}
use ingestion_service.Wal.Writer.Consistency.{IsConsistent}
use ingestion_service.Wal.Subscription
use ingestion_service.Wal.Subscription.{Subscription, offset_of}
use ingestion_service.Wal.Open.{
  Disk, Faults, first, last, unwrap_or, recover_active, read_start, finish_open, open_listed,
  open_wal,
}
use ingestion_service.Wal.Open.Sound.{
  IsReadable, Shows, recover_active-Recovered, head-le-last, last-max, finish_open-inv,
}

first-le-last :
    (ids : List ℕ) (a : ℕ) → IsSorted ids → last ids ≡ some a → unwrap_or (first ids) a ≤ a
first-le-last [] a s h = omega arith
first-le-last (x ∷ ids) a s h = head-le-last x a ids s h

none_of_last : (ids : List ℕ) → last ids ≡ none → ids ≡ []
none_of_last [] h = refl
none_of_last (x ∷ []) h = cc
none_of_last (x ∷ y ∷ ids) h = cc (none_of_last (y ∷ ids) h)

read_start-bounds :
    (ids : List ℕ) (active : ℕ) (r : Result WalError (Option WalOffset)) (start : WalOffset)
    → IsSorted ids
    → unwrap_or (last ids) 1 ≡ active
    → read_start ids active r ≡ ok start
    → (unwrap_or (first ids) active ≤ start.segment_id) × (start.segment_id ≤ active)
unfolding read_start
read_start-bounds ids active (err x) start s a h = cc
read_start-bounds [] active (ok none) start s a h = ground arith
read_start-bounds (x ∷ ids) active (ok none) start s a h = elim (Option-cases (last (x ∷ ids))) [
  | inl e ↦ cc (none_of_last (x ∷ ids) e)
  | inr (b, e) ↦ ground (arith, e, head-le-last x b ids s e)
]
read_start-bounds ids active (ok (some off)) start s a h = ground arith

-- Where the subscription starts, by what the cursor's files hold.
abbrev pub StartsAt : List ℕ → ℕ → Result WalError (Option WalOffset) → WalOffset → Type 0
StartsAt ids active (err e) start = ⊥
StartsAt ids active (ok none) start =
    start ≡ record { segment_id = unwrap_or (first ids) active; byte_offset = 0 }
StartsAt ids active (ok (some off)) start = start ≡ off

read_start-StartsAt :
    (ids : List ℕ) (active : ℕ) (r : Result WalError (Option WalOffset)) (start : WalOffset)
    → read_start ids active r ≡ ok start
    → StartsAt ids active r start
unfolding read_start
read_start-StartsAt ids active (err x) start h = cc
read_start-StartsAt ids active (ok none) start h = cc
read_start-StartsAt ids active (ok (some off)) start h = ground arith

-- Behind the active segment there is no file.
fresh_behind :
    (ids : List ℕ) (entries : List DirEntry) (disk : Disk) (id i : ℕ)
    → IsSorted ids
    → ((a : ℕ) → count a ids ≡ files_of a entries)
    → Shows entries disk
    → unwrap_or (last ids) 1 ≡ id
    → id < i
    → disk i ≡ none
fresh_behind ids entries disk id i s counts shows e lt = elim (Option-cases (last ids)) [
  | inl none_ ↦ shows i (sym (counts i) ∙ ap (λ (l : List ℕ). count i l) (none_of_last ids none_))
  | inr (a, g) ↦
      let below : a < i = ground (arith, e, g) in
      shows i (sym (counts i) ∙ last-max ids a i s g below)
]

-- The first of a successful start's two handles: its writer's account is right for the file that it
-- appends to, which is the whole frames that the last run left there, published to their end, with
-- all other segments as they were. The second: the subscription starts with no open file, at the
-- cursor, in a segment from the first to the active one.
abbrev pub Restarted :
    (ℕ → List ℕ)
    → List ℕ
    → Disk
    → Result WalError (Option WalOffset)
    → Writer
    → Subscription
    → Type 0
Restarted frame_of ids disk cursor w s =
    (ps : List (List ℕ)) × (t : List ℕ) × All IsPayload ps
    × IsTorn t
    × (contents (disk w.segment_id) ≡ frames ps ++ t)
    × IsConsistent frame_of w (frames ps)
    × (w.head ≡ record { segment_id = w.segment_id; byte_offset = length (frames ps) })
    × ((i : ℕ) → i ≢ w.segment_id → w.disk i ≡ disk i)
    × (s.reader ≡ none)
    × StartsAt ids w.segment_id cursor (offset_of s)
    × (unwrap_or (first ids) w.segment_id ≤ s.segment_id)
    × (s.segment_id ≤ w.segment_id)

spawned-Restarted :
    (frame_of : ℕ → List ℕ) (ids : List ℕ) (disk d : Disk) (id len segment_bytes now : ℕ)
    (opens : Bool) (cursor : Result WalError (Option WalOffset)) (start : WalOffset)
    (ps : List (List ℕ)) (t : List ℕ) (w : Writer) (s : Subscription)
    → All IsPayload ps
    → IsTorn t
    → contents (disk id) ≡ frames ps ++ t
    → contents (d id) ≡ frames ps
    → len ≡ length (frames ps)
    → ((i : ℕ) → i ≢ id → d i ≡ disk i)
    → ((i : ℕ) → id < i → disk i ≡ none)
    → unwrap_or (first ids) id ≤ start.segment_id
    → start.segment_id ≤ id
    → StartsAt ids id cursor start
    → spawn_writer opens d id len segment_bytes now ≡ some w
    → s ≡ Subscription.new start
    → Restarted frame_of ids disk cursor w s
unfolding spawn_writer Subscription.new
spawned-Restarted frame_of ids disk d id len segment_bytes now false cursor start ps t w s payloads
      torn before after width others fresh low high at h n =
    cc
spawned-Restarted frame_of ids disk d id len segment_bytes now true cursor start ps t w s payloads
      torn before after width others fresh low high at h n =
    let v : Writer = record {
      segment_id = id;
      byte_offset = len;
      segment_bytes = segment_bytes;
      buffer = [];
      disk = set_file d id (contents (d id));
      head = record { segment_id = id; byte_offset = len };
      notified = 0;
      pending = [];
      dirty = false;
      flush_deadline = now;
      sent = [];
    } in
    let e : v ≡ w = cc h in
    subst (λ v. Restarted frame_of ids disk cursor v s) e
      (subst (λ u. Restarted frame_of ids disk cursor v u) (sym n)
        (
          ps,
          t,
          payloads,
          torn,
          before,
          record {
            file = ground (arith, after);
            counted = omega (arith, width);
            fresh = λ i lt. ground (arith, others i, fresh i lt);
            published = inr (refl, omega (arith, width));
            clean = λ q. (refl, refl);
            waiting = tt;
            answered = tt;
          },
          ap (λ k. record { segment_id = id; byte_offset = k }) width,
          λ i ne. ground (arith, others i ne),
          refl,
          at,
          low,
          high,
        ))

open_listed-Restarted :
    (frame_of : ℕ → List ℕ) (bc : Bincode) (f : Faults) (options : WalOptions) (now : ℕ)
    (disk disk' : Disk) (cursor : CursorFiles) (ids : List ℕ) (entries : List DirEntry) (w : Writer)
    (s : Subscription)
    → IsReadable f disk
    → IsSorted ids
    → ((a : ℕ) → count a ids ≡ files_of a entries)
    → Shows entries disk
    → finish_open f options now ids cursor (recover_active bc f disk (last ids))
      ≡ some (ok (w, s), disk')
    → Restarted frame_of ids disk (read_cursor f.cursor cursor) w s
open_listed-Restarted frame_of bc f options now disk disk' cursor ids entries w s readable sorted
      counts shows h =
    let (id, len, d, recovered, start, starts, (spawned_, new_, _)) =
      finish_open-inv f options now ids cursor (recover_active bc f disk (last ids)) w s disk' h in
    let (active, (ps, t, payloads, torn, before, after, width, others)) =
      recover_active-Recovered bc f id len disk d (last ids) readable
        (λ e. shows 1 (sym (counts 1) ∙ ap (λ (l : List ℕ). count 1 l) (none_of_last ids e)))
        recovered in
    let (low, high) =
      read_start-bounds ids id (read_cursor f.cursor cursor) start sorted active starts in
    spawned-Restarted frame_of ids disk d id len options.segment_bytes now f.writer_opens
      (read_cursor f.cursor cursor) start ps t w s payloads torn before after width others
      (λ i lt. fresh_behind ids entries disk id i sorted counts shows active lt) low high
      (read_start-StartsAt ids id (read_cursor f.cursor cursor) start starts) spawned_ new_

-- A start that succeeds, on segments that can be read and a listing that shows them all, gives a writer
-- whose segment file held whole frames of at most 1 MiB and a torn rest: the file is those frames now,
-- the writer has published their end and its account of the file is right, and all other segments are
-- as they were. And it gives a subscription without an open file that stands at the offset which the
-- cursor's file holds, in a segment from the first to the active one; or, where there is no cursor, at
-- the first byte of the first segment.
pub open_wal-Restarted :
    (frame_of : ℕ → List ℕ) (bc : Bincode) (f : Faults) (options : WalOptions) (now : ℕ)
    (disk disk' : Disk) (cursor : CursorFiles) (entries : List DirEntry) (w : Writer)
    (s : Subscription)
    → IsReadable f disk
    → f.listing ≡ some entries
    → Shows entries disk
    → open_wal bc f options now disk cursor ≡ some (ok (w, s), disk')
    → (ids : List ℕ) × (list_segments f.listing ≡ ok ids)
      × Restarted frame_of ids disk (read_cursor f.cursor cursor) w s
unfolding open_wal open_listed
open_wal-Restarted frame_of bc f options now disk disk' cursor entries w s readable listed shows h =
    elim (Result-cases (list_segments f.listing)) [
      | inr (x, e) ↦ ground (arith, e, h)
      | inl (ids, e) ↦
          let (sorted, counts) =
            list_segments_lem entries ids (ap list_segments (sym listed) ∙ e) in
          let went_on : finish_open f options now ids cursor (recover_active bc f disk (last ids))
              ≡ some (ok (w, s), disk') =
            ground (arith, e, h) in
          (
            ids,
            e,
            open_listed-Restarted frame_of bc f options now disk disk' cursor ids entries w s
                readable sorted counts shows went_on,
          )
    ]
