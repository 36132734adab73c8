-- ===== src/Lib.antt =====
-- The ingestion service: messages arrive over MQTT, pass a pipeline of stages, are appended to a
-- write-ahead log (WAL) on disk, and are forwarded in batches from there to a sink (InfluxDB). This
-- library models the log, the forwarder, the pipeline with its router, the cache of sensor values, the
-- sink, the dispatcher of incoming messages and the configuration.
--
-- How the parts interact. The pipeline (src/pipeline) decodes and validates a payload, updates the
-- cache, and hands an event to the log with `append_durable`; what fails on the way goes to the
-- dead-letter queue. The log's writer thread (src/infrastructure/wal/writer.rs) frames events, buffers
-- them, publishes how far the files are readable (`head`), and answers the appends once they are
-- flushed. The subscription (subscription.rs) follows `head` through the segment files; the forwarder
-- (forwarder.rs) collects what it yields, writes it to the sink and then commits, which moves the
-- cursor (cursor.rs) and deletes old segments. After a crash, recovery (recover.rs) finds where the
-- last whole record ends.
--
-- The files, by the code they model:
-- - Common: numbers, lists, results and tests that all share; nothing of the program.
-- - Wal/Bytes: `to_le_bytes`, `to_be_bytes` and their inverses.
-- - Wal/Types: src/infrastructure/wal/types.rs; Wal/Codec: wal/codec.rs; Wal/Recover: wal/recover.rs;
--   Wal/Segment: wal/segment.rs; Wal/Cursor: wal/cursor.rs.
-- - Wal/Writer: wal/writer.rs. The record Writer holds the variables of `writer_loop`, the buffer of
--   the BufWriter, the files, and what others have seen. Writer/BufWriter has the buffered file,
--   Writer/Turn one pass of the loop (`pass`), Writer/Loop the loop, `spawn_writer` and the shutdown.
-- - Wal/Subscription: wal/subscription.rs. `next_round` is one round of the loop of `next`, given what
--   it meets on disk and the loads of `head`; Subscription/Commit is `commit`. Subscription/Torn is
--   about files that end inside a record.
-- - Wal/Forwarder: wal/forwarder.rs, as a function to the list of its effects.
-- - Wal/Append: `try_append` and `append_durable` of wal/wal.rs; Wal/Open: its `open`, given how the
--   file operations of a start end. Open/Total, Sound and Restart are its proofs.
-- - Wal/Head: `AtomicWalOffset` of wal/writer.rs, as a step relation between its single accesses.
-- - Model/Topic: src/model/topic.rs; Model/Messages: src/model/messages.
-- - Cache: src/infrastructure/cache/state.rs; Cache/Http: the handlers of cache/http.rs.
-- - Pipeline/Router: src/infrastructure/router.rs; Router/Build: `build_router` of src/main.rs.
-- - Pipeline/Context, Runner: src/pipeline/context.rs,
--   stage.rs and runner.rs; Pipeline/Stages: src/pipeline/stages. Stages/Outcome and Stages/Fate have
--   the order of the stages in src/main.rs, the last four and all.
-- - Pipeline/Transform: src/pipeline/stages/transform.rs, with the formulas in Transform/Derived and
--   the stage in Stages/Transforming.
-- - Sink/Point: src/infrastructure/sink/point.rs, with a reader of single lines in Point/Reading;
--   Sink/Influx: sink/influx.rs, a write as a function of the answers to its requests.
-- - Source: `IngestDispatcher` of src/infrastructure/source/mod.rs; Source/Mqtt: the loop of
--   source/mqtt.rs, given what its waits come to.
-- - Config: src/config.rs, from the list of the environment's variables.
-- - Pipeline/Library, Json and Floats: the third-party code that the pipeline calls, and the arithmetic
--   of f64, as the fields of records.
-- - Wal/Tests, Tests: the properties on concrete data.
--
-- Conventions. Numbers are natural numbers; 64-bit bounds are hypotheses where they matter. Bytes are
-- numbers below 256, strings are lists of their characters, file names lists of their bytes. What the
-- outside decides (how a file operation ends, what a channel or the sink answers, the clock) is an
-- argument, so that a theorem about all arguments is one about all such behaviours. A list of answers
-- that has ended is a call that has not returned. Recovery's loop runs on fuel of one more than the
-- file's length; each round takes four bytes at least, so that is enough, and the theorem about it says
-- that an answer is given. bincode is a parameter that reads back what it wrote.
--
-- Not modelled: weak memory (the accesses of the seqlock are seen in one order by all; with it proved
-- to act as one atomic value, the writer's and the subscription's models read and write it at once),
-- the HTTP client of the sink and the routes of the HTTP server, the MQTT client, the start-up and shutdown of
-- the tasks, metrics and logging. The arithmetic and the texts of f64 and serde_json's values are
-- parameters.
pub mod Common
pub mod Wal
pub mod Model
pub mod Cache
pub mod Pipeline
pub mod Sink
pub mod Source
pub mod Config
pub mod Tests
