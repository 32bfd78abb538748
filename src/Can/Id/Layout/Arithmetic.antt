-- ===== src/Can/Id/Layout/Arithmetic.antt =====
-- A 32-bit identifier and its fields, by division; `spare` holds the bits above the 29 of CAN. See the bit positions of
-- include/thingset++/can/CanID.hpp.
use thingsetplusplus.Prelude.{ℕ, ◌+◌, ◌*◌, ◌/◌, ◌%◌, ◌^◌, ◌<◌, ◌≡◌, arith}

pub record Layout : Type 0 where
  pub spare : ℕ
  pub priority : ℕ
  pub type : ℕ
  pub bridge : ℕ
  pub message_number : ℕ
  pub multi_frame_type : ℕ
  pub sequence_number : ℕ
  pub source : ℕ

unfoldable pub layout : ℕ → Layout
layout id = record {
  spare = id / 2 ^ 29;
  priority = id / 2 ^ 26 % 8;
  type = id / 2 ^ 24 % 4;
  bridge = id / 2 ^ 16 % 256;
  message_number = id / 2 ^ 14 % 4;
  multi_frame_type = id / 2 ^ 12 % 4;
  sequence_number = id / 2 ^ 8 % 16;
  source = id % 256;
}

unfoldable pub number : Layout → ℕ
number l =
    l.spare * 2 ^ 29
    + l.priority * 2 ^ 26
    + l.type * 2 ^ 24
    + l.bridge * 2 ^ 16
    + l.message_number * 2 ^ 14
    + l.multi_frame_type * 2 ^ 12
    + l.sequence_number * 2 ^ 8
    + l.source

-- Each field is within its bits; the spare bits are not bounded.
pub record Fits (l : Layout) : Type 0 where
  pub priority : l.priority < 8
  pub type : l.type < 4
  pub bridge : l.bridge < 256
  pub message_number : l.message_number < 4
  pub multi_frame_type : l.multi_frame_type < 4
  pub sequence_number : l.sequence_number < 16
  pub source : l.source < 256

pub layout-Fits : (id : ℕ) → Fits (layout id)
unfolding layout
layout-Fits id = omega arith

pub number-layout : (id : ℕ) → number (layout id) ≡ id
unfolding layout number
number-layout id = omega arith

pub layout-number : (l : Layout) → Fits l → layout (number l) ≡ l
unfolding layout number
layout-number l f = ground arith
