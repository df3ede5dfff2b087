-- ===== src/Indexing.antt =====
-- The index of a source (app/context_engine/services/indexing.py).
pub mod Types
pub mod Requests
pub mod Results
pub mod Changes
pub mod Left
pub mod Consistent
pub mod Identity
pub mod Worker
pub mod Fence
pub mod Overtaken
pub mod Deleted
pub mod Flush
pub mod Allowed
pub mod Undisturbed
pub mod Serial
mod Tests
