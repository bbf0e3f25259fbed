-- ===== src/Store.antt =====
-- The stores of stores/.
pub mod Memory
pub mod Sql
pub mod Bolt
pub mod Dynamo
pub mod Cosmos
