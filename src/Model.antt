-- ===== src/Model.antt =====
-- src/model: topics and messages.
pub mod Topic
pub mod Messages
