-- ===== src/Wal/Append.antt =====
-- `Wal::try_append` and `Wal::append_durable` of src/infrastructure/wal/wal.rs. The queue's answer
-- and what the ack's channel gives are arguments.
use ingestion_service.Common.{Result, ok, err}
use ingestion_service.Wal.Types.{
  WalEvent, TryAppendError, AckError, AppendDurableError, exited_before_ack,
}

-- `try_send` on the bounded queue.
pub data Sending : Type 0 where
  sent queue_full disconnected : Sending

-- What the receiver of the ack gets: the writer's answer, or the end of the channel.
pub data AckRead : Type 0 where
  answered : Result AckError (Unit {0}) → AckRead
  dropped : AckRead

unfoldable pub try_append : Sending → WalEvent → Result TryAppendError (Unit {0})
try_append sent event = ok tt
try_append queue_full event = err (TryAppendError.full event)
try_append disconnected event = err (TryAppendError.closed event)

unfoldable pub await_ack : AckRead → Result AppendDurableError (Unit {0})
await_ack (answered (ok _)) = ok tt
await_ack (answered (err reason)) = err (AppendDurableError.durability reason)
await_ack dropped = err (AppendDurableError.durability exited_before_ack)

unfoldable pub append_durable : Sending → AckRead → WalEvent → Result AppendDurableError (Unit {0})
append_durable sent ack event = await_ack ack
append_durable queue_full ack event = err (AppendDurableError.full event)
append_durable disconnected ack event = err (AppendDurableError.closed event)
