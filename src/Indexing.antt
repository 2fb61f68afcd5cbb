-- ===== src/Indexing.antt =====
-- Background indexing (apps/sp-api/src/indexing).
pub mod SyncState
pub mod SceneIndex
pub mod Queue
pub mod Scheduler
