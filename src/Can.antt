-- ===== src/Can.antt =====
-- The CAN transport: src/can and include/thingset++/can.
pub mod Id
mod Examples
