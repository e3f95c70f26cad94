-- ===== src/Broker.antt =====
-- The message broker (mbroker/): its table of boxes.
pub mod Boxes
pub mod Table
pub mod Create
pub mod Remove
pub mod Tests
