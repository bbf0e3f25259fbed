-- ===== src/Order.antt =====
-- The order aggregate of gen/example/app/order/v1: its events, its commands, its derived fields and
-- the evaluators written by hand.
pub mod Types
pub mod Aggregate
pub mod Commands
pub mod Emit
pub mod Replay
pub mod Tail
pub mod TailLoad
pub mod Machine
pub mod Progress
pub mod Totals
