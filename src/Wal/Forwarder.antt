-- ===== src/Wal/Forwarder.antt =====
-- src/infrastructure/wal/forwarder.rs: batches from the log to the sink, and the cursor behind them.
-- The sink and the cursor's commit are lists of answers; a list that has ended is a call that has
-- not returned yet.
pub mod Order
pub mod Delivery
use ingestion_service.Common.{
  ℕ, suc, ◌*◌, min, max, Option, none, some, List, [], ◌∷◌, ◌++◌, map, Bool, true, false, length,
  leb, if◌then◌else◌,
}
use ingestion_service.Wal.Types.{WalOffset, WalEvent, WalEntry}

abbrev pub retry_backoff_cap_ms : ℕ
retry_backoff_cap_ms = 5000

abbrev pub retry_backoff_start_cap_ms : ℕ
retry_backoff_start_cap_ms = 1000

-- `clamp(1, RETRY_BACKOFF_START_CAP_MS)`
unfoldable pub initial_backoff_ms : ℕ → ℕ
initial_backoff_ms flush_interval_ms = min (max flush_interval_ms 1) retry_backoff_start_cap_ms

unfoldable pub next_backoff : ℕ → ℕ
next_backoff backoff_ms = min (backoff_ms * 2) retry_backoff_cap_ms

-- What `Sink::write` answers: `Ok`, or one of the two sorts of `SinkError`.
pub data Response : Type 0 where
  written retryable permanent : Response

-- What the forwarder does to the outside, in order: a write with its answer, a commit with whether it
-- succeeded, and a sleep.
pub data Effect : Type 0 where
  sink_write : List WalEvent → Response → Effect
  commit : WalOffset → Bool → Effect
  sleep : ℕ → Effect

-- The first `loop` of `flush`: its effects, and the answers that it leaves when it ends.
unfoldable pub write_loop : List WalEvent → ℕ → List Response → List Effect × Option (List Response)
write_loop events backoff_ms [] = ([], none)
write_loop events backoff_ms (written ∷ rs) = (sink_write events written ∷ [], some rs)
write_loop events backoff_ms (r ∷ rs) =
    let (effects, left) = write_loop events (next_backoff backoff_ms) rs in
    (sink_write events r ∷ sleep backoff_ms ∷ effects, left)

-- The second `loop` of `flush`.
unfoldable pub commit_loop : WalOffset → ℕ → List Bool → List Effect × Option (List Bool)
commit_loop highest backoff_ms [] = ([], none)
commit_loop highest backoff_ms (true ∷ cs) = (commit highest true ∷ [], some cs)
commit_loop highest backoff_ms (false ∷ cs) =
    let (effects, left) = commit_loop highest (next_backoff backoff_ms) cs in
    (commit highest false ∷ sleep backoff_ms ∷ effects, left)

-- The answers that are still to come.
pub record World : Type 0 where
  pub responses : List Response
  pub commits : List Bool

-- The offset behind the last entry of a batch that is not empty.
unfoldable pub highest : WalEntry → List WalEntry → WalOffset
highest e [] = e.offset_after
highest e (e' ∷ es) = highest e' es

abbrev pub events_of : List WalEntry → List WalEvent
events_of es = map (λ e. e.event) es

-- `flush` once the first loop has ended.
unfoldable pub flush_commit :
    ℕ → WalOffset → List Bool → List Effect × Option (List Response) → List Effect × Option World
flush_commit interval_ms up_to cs (effects, none) = (effects, none)
flush_commit interval_ms up_to cs (effects, some rs) =
    let (more, left) = commit_loop up_to (initial_backoff_ms interval_ms) cs in
    (
      effects ++ more,
      elim left [ none ↦ none | some cs' ↦ some (record { responses = rs; commits = cs' }) ],
    )

-- `flush` of the batch `e ∷ es`; without a world behind it, it has not returned.
unfoldable pub flush : ℕ → WalEntry → List WalEntry → World → List Effect × Option World
flush interval_ms e es w =
    flush_commit interval_ms (highest e es) w.commits
      (write_loop (events_of (e ∷ es)) (initial_backoff_ms interval_ms) w.responses)

-- What the `select!` of `run_forwarder` yields: the ticker, an entry, or the end of the log.
pub data Input : Type 0 where
  tick : Input
  arrived : WalEntry → Input
  closed : Input

-- How far a run has come: it waits for input with a batch, waits inside a flush, or has returned.
pub data Progress : Type 0 where
  waiting : List WalEntry → World → Progress
  flushing returned : Progress

-- A flush in front of the rest of a run, which takes the world that the flush leaves.
unfoldable pub then_run :
    List Effect × Option World → (World → List Effect × Progress) → List Effect × Progress
then_run (effects, none) next = (effects, flushing)
then_run (effects, some w) next = let (more, p) = next w in (effects ++ more, p)

-- The body of the loop under a non-empty batch.
unfoldable pub flush_then :
    ℕ → List WalEntry → World → (World → List Effect × Progress) → List Effect × Progress
flush_then interval_ms [] w next = next w
flush_then interval_ms (e ∷ es) w next = then_run (flush interval_ms e es w) next

unfoldable pub run_forwarder : ℕ → ℕ → List WalEntry → World → List Input → List Effect × Progress
run_forwarder batch_size interval_ms batch w [] = ([], waiting batch w)
run_forwarder batch_size interval_ms batch w (tick ∷ xs) =
    flush_then interval_ms batch w (λ w'. run_forwarder batch_size interval_ms [] w' xs)
run_forwarder batch_size interval_ms batch w (arrived e ∷ xs) =
    let full =
      flush_then interval_ms (batch ++ (e ∷ [])) w
        (λ w'. run_forwarder batch_size interval_ms [] w' xs) in
    let more = run_forwarder batch_size interval_ms (batch ++ (e ∷ [])) w xs in
    if leb batch_size (length (batch ++ (e ∷ []))) then full else more
run_forwarder batch_size interval_ms batch w (closed ∷ xs) =
    flush_then interval_ms batch w (λ w'. ([], returned))
