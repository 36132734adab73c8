-- ===== src/Wal/Writer/Loop.antt =====
-- `spawn_writer` and the whole of `writer_loop` of writer.rs.
use ingestion_service.Common.{ℕ, Bool, false, Option, none, some, List, [], ◌∷◌}
use ingestion_service.Common.{if◌then◌else◌}
use ingestion_service.Wal.Types.{AckError}
use ingestion_service.Wal.Codec.{Bincode}
use ingestion_service.Wal.Writer.{Writer, Fault}
use ingestion_service.Wal.Writer.BufWriter.{set_file, contents, flush}
use ingestion_service.Wal.Writer.Turn.{
  Pass, Flow, running, stopped, fatal, fail_pending_durable_acks, acknowledge_pending_durable_ok,
  store_head, notify_waiters, pass,
}

-- What `spawn_writer` sets up: the start segment's file is opened for appending, and created if it
-- is not there. `none` where it does not open.
unfoldable pub spawn_writer : Bool → (ℕ → Option (List ℕ)) → ℕ → ℕ → ℕ → ℕ → Option Writer
spawn_writer opens disk start_segment_id start_byte_offset segment_bytes now =
    if opens
    then some (record {
      segment_id = start_segment_id;
      byte_offset = start_byte_offset;
      segment_bytes = segment_bytes;
      buffer = [];
      disk = set_file disk start_segment_id (contents (disk start_segment_id));
      head = record { segment_id = start_segment_id; byte_offset = start_byte_offset };
      notified = 0;
      pending = [];
      dirty = false;
      flush_deadline = now;
      sent = [];
    })
    else none

-- Behind the loop: the final flush, and the drop of the `BufWriter`.
unfoldable pub shutdown : Fault → Fault → Writer → Writer
shutdown final_flush drop_flush w =
    let (flushed, w') = flush final_flush w in
    if flushed
    then notify_waiters (acknowledge_pending_durable_ok (store_head w'))
    else (flush drop_flush (notify_waiters (fail_pending_durable_acks AckError.final_flush w'))).1

-- The loop over the passes that it meets: it stops at the first that does not go on, and a stop by
-- the closed channel is a shutdown.
unfoldable pub writer_loop : Bincode → Fault → Fault → List Pass → Writer → Flow × Writer
writer_loop bc final_flush drop_flush [] w = (running, w)
writer_loop bc final_flush drop_flush (p ∷ ps) w =
    let (flow, w') = pass bc p w in
    elim flow [
      | running ↦ writer_loop bc final_flush drop_flush ps w'
      | stopped ↦ (stopped, shutdown final_flush drop_flush w')
      | fatal reason ↦ (fatal reason, w')
    ]
