-- ===== src/Isotp/Segments.antt =====
-- How a message is spread over CAN frames, independently of the code that sends and receives them.
use thingsetplusplus.Prelude.{
  ℕ, suc, ◌+◌, ◌-◌, ◌/◌, ◌%◌, ◌≤◌, ◌<◌, ◌≡◌, List, [], ◌∷◌, take, drop, length, ltb, if◌then◌else◌,
}
use thingsetplusplus.Bytes.{Bytes}
use thingsetplusplus.Isotp.{CanFrame, Driver, byte_at, queued}

abbrev pub least : ℕ → ℕ → ℕ
least a b = if ltb a b then a else b

-- The documented behaviour of the CAN driver: the length that is coded covers what was asked for, it does not exceed
-- the largest, and the code of the largest is the one of a first frame.
pub record Documented {D : Type 0} (can : Driver D) : Type 0 where
  pub some_room : 2 < can.max_dlen
  pub is_byte : can.max_dlen ≤ 64
  pub covers : (n : ℕ) → n ≤ can.max_dlen → n ≤ can.dlc_to_bytes (can.bytes_to_dlc n)
  pub bounded : (dlc : ℕ) → can.dlc_to_bytes dlc ≤ can.max_dlen
  pub largest : can.bytes_to_dlc can.max_dlen ≡ can.ff_dl_min

abbrev pub AlwaysSends : {D : Type 0} → Driver D → Type 0
AlwaysSends {D} can = (frame : CanFrame) (d : D) → (can.can_send frame d).0 ≡ queued

module _ {D : Type 0} (can : Driver D) where
  -- What one frame behind the first can hold.
  abbrev pub cut : ℕ
  cut = can.max_dlen - 1

  -- The frame with number `k` of a message of which `rest` is left.
  pub record Continues (k : ℕ) (rest : Bytes) (frame : CanFrame) : Type 0 where
    pub marked : byte_at frame 0 ≡ 32 + k % 16
    pub room : 1 + least (length rest) cut ≤ can.dlc_to_bytes frame.dlc
    pub holds : take (least (length rest) cut) (drop 1 frame.bytes) ≡ take cut rest

  abbrev pub AreConsecutive : ℕ → ℕ → Bytes → List CanFrame → Type 0
  AreConsecutive a k rest [] = rest ≡ []
  AreConsecutive a k rest (f ∷ fs) =
      (f.id ≡ a)
      × (0 < length rest)
      × Continues k rest f
      × AreConsecutive a (suc k) (drop cut rest) fs

  -- The first frame holds the length in 12 bits and the message's first bytes.
  pub record Begins (message : Bytes) (frame : CanFrame) : Type 0 where
    pub coded : frame.dlc ≡ can.ff_dl_min
    pub high : byte_at frame 0 ≡ 16 + length message / 256
    pub low : byte_at frame 1 ≡ length message % 256
    pub holds : take (can.max_dlen - 2) (drop 2 frame.bytes) ≡ take (can.max_dlen - 2) message

  -- The frames of a message that does not fit into one.
  abbrev pub AreSegments : ℕ → Bytes → List CanFrame → Type 0
  AreSegments a message [] = ⊥
  AreSegments a message (f ∷ fs) =
      (f.id ≡ a) × Begins message f × AreConsecutive a 1 (drop (can.max_dlen - 2) message) fs
