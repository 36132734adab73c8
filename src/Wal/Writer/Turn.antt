-- ===== src/Wal/Writer/Turn.antt =====
-- `writer_loop` of writer.rs: one pass of its loop, given what the pass meets.
use ingestion_service.Common.{
  ℕ, suc, ◌+◌, Bool, true, false, ◌&&◌, Option, none, some, List, [], ◌∷◌, ◌++◌, map, length, ltb,
  leb, if◌then◌else◌, Result, ok, err,
}
use ingestion_service.Wal.Types.{WalError, AckError}
use ingestion_service.Wal.Codec.{Bincode, encode_into}
use ingestion_service.Wal.Writer.{
  Writer, WriteRequest, done, failed, WriterFatalReason, flush_before_rotation, open_next_segment,
  write_all, flush_interval, Fault,
}
use ingestion_service.Wal.Writer.BufWriter
use ingestion_service.Wal.Writer.BufWriter.{set_file, contents, append, flush}

-- What `recv` or `recv_timeout` answers. (`recv`, which a clean writer calls, never times out.)
pub data Received : Type 0 where
  request : WriteRequest → Received
  timeout disconnected : Received

-- What one pass meets: the clock where it is read, the message, and how the file operations end.
pub record Pass : Type 0 where
  pub now : ℕ
  pub later : ℕ
  pub received : Received
  pub periodic_flush : Fault
  pub rotation_flush : Fault
  pub opens : Bool
  pub write_flush : Fault
  pub write_direct : Fault
  pub drop_flush : Fault

pub data Flow : Type 0 where
  running stopped : Flow
  fatal : WriterFatalReason → Flow

-- `ack.send(Err(..))`, if the request has an ack.
unfoldable pub fail_ack : Option ℕ → AckError → Writer → Writer
fail_ack none e w = w
fail_ack (some a) e w = record w { sent = w.sent ++ failed a e ∷ [] }

unfoldable pub fail_pending_durable_acks : AckError → Writer → Writer
fail_pending_durable_acks e w = record w {
  sent = w.sent ++ map (λ a. failed a e) w.pending;
  pending = [];
}

unfoldable pub acknowledge_pending_durable_ok : Writer → Writer
acknowledge_pending_durable_ok w = record w { sent = w.sent ++ map done w.pending; pending = [] }

unfoldable pub store_head : Writer → Writer
store_head w = record w { head = record { segment_id = w.segment_id; byte_offset = w.byte_offset } }

unfoldable pub notify_waiters : Writer → Writer
notify_waiters w = record w { notified = suc w.notified }

-- `head.store(..); notify.notify_waiters(); acknowledge_pending_durable_ok(..)`
unfoldable pub publish : Writer → Writer
publish w = acknowledge_pending_durable_ok (notify_waiters (store_head w))

-- The flush at the top of the loop.
unfoldable pub flush_if_due : Pass → Writer → Writer
flush_if_due p w =
    if w.dirty && leb w.flush_deadline p.now
    then (let (flushed, w') = flush p.periodic_flush w in
        if flushed
        then publish (record w' { dirty = false })
        else record w' { flush_deadline = p.later + flush_interval })
    else w

-- The request and all that wait are told.
unfoldable pub fail_all : AckError → Option ℕ → Writer → Writer
fail_all e ack w = fail_pending_durable_acks e (fail_ack ack e w)

-- A `return` before the end of the thread: all are told, and the `BufWriter` is dropped, which tries
-- once more to write what it holds.
unfoldable pub give_up : Pass → WriterFatalReason → AckError → Option ℕ → Writer → Flow × Writer
give_up p reason e ack w = (fatal reason, (flush p.drop_flush (fail_all e ack w)).1)

-- The next segment's file, opened for appending and created if it is not there.
unfoldable pub next_segment : Writer → Writer
next_segment w = record w {
  segment_id = w.segment_id + 1;
  byte_offset = 0;
  buffer = [];
  disk = set_file w.disk (w.segment_id + 1) (contents (w.disk (w.segment_id + 1)));
}

-- `current_byte_offset > 0 && current_byte_offset + record_len > segment_bytes`
unfoldable pub needs_rotation : ℕ → Writer → Bool
needs_rotation record_len w =
    ltb 0 w.byte_offset && ltb w.segment_bytes (w.byte_offset + record_len)

-- From the check for rotation to the write: `running` where the write is reached.
unfoldable pub rotate : Pass → ℕ → Option ℕ → Writer → Flow × Writer
rotate p record_len ack w =
    if needs_rotation record_len w
    then (let (flushed, w') = flush p.rotation_flush w in
        if flushed
        then (let w'' = publish w' in
            if p.opens then (running, next_segment w'') else (
              fatal open_next_segment,
              fail_all AckError.open_next_segment ack
                  (record w'' { segment_id = w''.segment_id + 1; byte_offset = 0 }),
            ))
        else give_up p flush_before_rotation AckError.flush_before_rotation ack w')
    else (running, w)

unfoldable pub push_ack : Option ℕ → List ℕ → List ℕ
push_ack none pending = pending
push_ack (some a) pending = pending ++ a ∷ []

-- The write and the bookkeeping behind it.
unfoldable pub write_record : Pass → List ℕ → Option ℕ → Writer → Flow × Writer
write_record p bytes ack w =
    let (written, w') = BufWriter.write_all p.write_flush p.write_direct bytes w in
    if written
    then (
      running,
      record w' {
        byte_offset = w'.byte_offset + length bytes;
        pending = push_ack ack w'.pending;
        dirty = true;
        flush_deadline = if w'.dirty then w'.flush_deadline else p.later + flush_interval;
      },
    )
    else give_up p write_all AckError.write_all ack w'

-- `write_record`, if the rotation went well.
unfoldable pub then_write : Pass → List ℕ → Option ℕ → Flow × Writer → Flow × Writer
then_write p bytes ack (running, w) = write_record p bytes ack w
then_write p bytes ack (flow, w) = (flow, w)

unfoldable pub handle_encoded : Pass → Result WalError (List ℕ) → Option ℕ → Writer → Flow × Writer
handle_encoded p (ok bytes) ack w = then_write p bytes ack (rotate p (length bytes) ack w)
handle_encoded p (err e) ack w = (running, fail_ack ack AckError.encode_failed w)

unfoldable pub receive : Bincode → Pass → Received → Writer → Flow × Writer
receive bc p (request r) w = handle_encoded p (encode_into bc r.event) r.durable_ack w
receive bc p timeout w = (running, w)
receive bc p disconnected w = (stopped, w)

unfoldable pub pass : Bincode → Pass → Writer → Flow × Writer
pass bc p w = receive bc p p.received (flush_if_due p w)
