-- ===== src/Sls.antt =====
-- crates/neon-log/src/sls: the pipeline that ships log records to Aliyun SLS (sink.rs) and the
-- tracing layer that feeds it (layer.rs).
pub mod Config
pub mod Counters
pub mod Batch
pub mod Backoff
pub mod Send
pub mod Queue
pub mod Pipeline
pub mod Worker
pub mod Layer
mod Tests
