-- ===== src/Text.antt =====
-- The text protocol of ThingSet.
pub mod Encoder
mod Examples
