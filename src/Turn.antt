-- ===== src/Turn.antt =====
-- The turns of a conversation (app/context_engine/services/chat_turns.py).
pub mod Types
pub mod Event
pub mod Lease
pub mod Finalize
pub mod Redact
pub mod Log
pub mod Stream
pub mod Admission
mod Tests
