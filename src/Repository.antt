-- ===== src/Repository.antt =====
-- protosource.go: `Repository`, which loads an aggregate by replaying its events and applies a
-- command by validating it, emitting events and saving them.
pub mod Types
pub mod Base
pub mod Fold
pub mod Run
pub mod Stored
pub mod Log
pub mod Views
pub mod Commit
pub mod Browse
pub mod Keys
pub mod Isolation
