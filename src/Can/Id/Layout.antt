-- ===== src/Can/Id/Layout.antt =====
-- The identifier as a tuple of bit fields, an independent description of what CanID.cpp computes by
-- masks and shifts: what each getter reads and each setter changes.
mod Arithmetic
pub mod Getters
pub mod Setters
unfoldable pub use Arithmetic.{layout, number}
pub use Arithmetic.{Layout, number-layout, layout-number, Fits, layout-Fits}
