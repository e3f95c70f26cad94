-- ===== src/Pcq.antt =====
-- The producer-consumer queue (producer-consumer/).
pub mod Queue
pub mod Create
pub mod Ring
pub mod Pair
pub mod Fifo
pub mod Race
mod Tests
