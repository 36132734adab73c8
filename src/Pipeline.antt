-- ===== src/Pipeline.antt =====
-- src/pipeline: a message's way from the raw payload to the log or to the dead-letter queue.
pub mod Library
pub mod Floats
pub mod Json
pub mod Transform
pub mod Router
pub mod Context
pub mod Runner
pub mod Stages
