-- ===== src/Store/Bolt.antt =====
-- stores/boltdbstore: histories in shards, each a bbolt database, with an index of the shards.
pub mod Keys
pub mod Saved
pub mod Assigned
pub mod Start
pub mod History
pub mod Log
pub mod Written
pub mod Tail
pub mod Bucket
pub mod Index
pub mod Run
pub mod Capacity
