-- ===== src/Lifecycle.antt =====
-- The lifecycle of a domain (app/context_engine/services/domains.py): the operations that create,
-- start, stop and delete it, their leases and generations, and the worker that removes it.
pub mod Types
pub mod Rows
pub mod Transition
pub mod Requests
pub mod Create
pub mod Control
pub mod Removal
pub mod Views
pub mod Reconcile
pub mod DeleteWorker
pub mod Valid
pub mod Quiet
pub mod Endings
pub mod Opening
pub mod Begun
pub mod Fence
pub mod Removing
pub mod Reconciled
pub mod Steps
pub mod Reachable
pub mod Keeps
pub mod Deleting
pub mod Superseded
pub mod Undisturbed
pub mod Actions
pub mod Unresolved
pub mod Removed
mod Tests
