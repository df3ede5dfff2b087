-- ===== src/Preparation.antt =====
-- The preparation of a source (app/context_engine/services/sources.py): the operation that parses an
-- upload, its lease, its generation, and what supersedes it. The index of a source, which a
-- publication queues in the same transaction, is in Indexing.
pub mod Types
pub mod Requests
pub mod Publish
pub mod Worker
pub mod DeleteWorker
pub mod Kept
pub mod Steps
pub mod Stale
pub mod Doomed
mod Tests
