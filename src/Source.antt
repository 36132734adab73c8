-- ===== src/Source.antt =====
-- `IngestDispatcher` of src/infrastructure/source/mod.rs: jobs from the source to the workers' queues.
pub mod Kept
pub mod Mqtt
use ingestion_service.Common.{
  ℕ, zero, suc, ◌+◌, ◌%◌, ◌^◌, Bool, true, false, List, [], ◌∷◌, ◌++◌, length, ltb, if◌then◌else◌,
}
use ingestion_service.Model.Messages.{Str}

pub record IngestJob : Type 0 where
  pub topic : Str
  pub payload : List ℕ

-- A bounded channel: whether its worker still receives, its capacity, and what it holds.
pub record Channel : Type 0 where
  pub open' : Bool
  pub capacity : ℕ
  pub jobs : List IngestJob

-- The channels, the counter, and how many jobs were dropped.
pub record IngestDispatcher : Type 0 where
  pub senders : List Channel
  pub next : ℕ  -- usize
  pub dropped : ℕ

-- `try_send`: whether the job was taken, and the channel behind it.
unfoldable pub try_send : IngestJob → Channel → Bool × Channel
try_send job c =
    if c.open'
    then (if ltb (length c.jobs) c.capacity
        then (true, record c { jobs = c.jobs ++ (job ∷ []) })
        else (false, c))
    else (false, c)

-- `senders[idx].try_send(job)`
unfoldable pub send_at : ℕ → IngestJob → List Channel → Bool × List Channel
send_at i job [] = (false, [])
send_at zero job (c ∷ cs) = ((try_send job c).0, (try_send job c).1 ∷ cs)
send_at (suc i) job (c ∷ cs) = ((send_at i job cs).0, c ∷ (send_at i job cs).1)

unfoldable pub dispatch : IngestJob → IngestDispatcher → IngestDispatcher
dispatch job d =
    let (sent, senders) = send_at (d.next % length d.senders) job d.senders in
    record {
      senders = senders;
      next = (d.next + 1) % 2 ^ 64;
      dropped = if sent then d.dropped else d.dropped + 1;
    }

-- Jobs one after another.
unfoldable pub dispatch_all : List IngestJob → IngestDispatcher → IngestDispatcher
dispatch_all [] d = d
dispatch_all (job ∷ jobs) d = dispatch_all jobs (dispatch job d)
