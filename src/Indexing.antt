-- ===== src/Indexing.antt =====
-- The scheduling of index jobs (src/core/indexing/scheduler.ts). A time is a number of
-- milliseconds, where the code stores its text and reads it back.
pub mod Serial
pub mod Pool

pub data IndexJobStatus : Type 0 where
  pending running succeeded failed : IndexJobStatus
