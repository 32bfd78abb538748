-- ===== src/Isotp/Receive/Delivery.antt =====
-- A message that arrives (src/can/zephyr/isotp/isotp_fast.c): what `process_cf` does with the next frame of it.
use thingsetplusplus.Prelude.{
  ℕ, ◌+◌, ◌-◌, ◌%◌, ◌≤◌, ◌<◌, ◌≡◌, refl, ◌⊎◌, true, false, [], some, length, take, drop,
  length-drop, ltb, leb, ◌==◌, if◌then◌else◌, bit_and, ==_iff, arith,
}
use thingsetplusplus.Bytes.{Bytes}
use thingsetplusplus.Isotp.{CanFrame, Driver, Config, RecvCtx, wait_cf, World, byte_at, pci_type}
use thingsetplusplus.Isotp.Pci.{high_half, low_half}
use thingsetplusplus.Isotp.Segments.{least, Documented, cut, Continues}
use thingsetplusplus.Isotp.Receive.{received, process_cf, after_cf, add_to_frag}

-- A context in the middle of a message: `before` has arrived, `rest` has not, and frame `k` is next.
pub record Midway (config : Config) (k : ℕ) (before rest : Bytes) (c : RecvCtx) : Type 0 where
  pub waiting : c.state ≡ wait_cf
  pub missing : c.rem_len ≡ length rest
  pub arrived : received c ≡ before
  pub numbered : c.sn_expected ≡ k % 16
  pub block : (config.bs ≡ 0) ⊎ ((0 < c.bs) × (c.bs ≤ config.bs))

module _ {D : Type 0} (can : Driver D) (config : Config) (documented : Documented can) where
  -- The context with the bytes of the next frame.
  abbrev pub filled : Bytes → RecvCtx → RecvCtx
  filled rest c = record c {
    timer = some config.cr_timeout;
    sn_expected = (c.sn_expected + 1) % 16;
    frag = take (cut can) rest;
    rem_len = length (drop (cut can) rest);
  }

  module _ (k : ℕ) (rest : Bytes) (short : length rest ≤ 4095) (frame : CanFrame)
      (next : Continues can k rest frame) where
    pub is_cf : pci_type frame ≡ 32
    is_cf = rw next.marked (omega (arith, high_half (32 + k % 16)))

    number : bit_and (byte_at frame 0) 15 ≡ k % 16
    number = rw next.marked (omega (arith, low_half (32 + k % 16)))

    pub process_cf-next :
        (c : RecvCtx) (w : World D)
        → c.rem_len ≡ length rest
        → c.sn_expected ≡ k % 16
        → c.frag ≡ []
        → process_cf can config frame c w ≡ after_cf can config (filled rest c) w
    unfolding process_cf add_to_frag
    process_cf-next c w missing numbered empty =
        let room = can.dlc_to_bytes frame.dlc in
        let n = least (length rest) (cut can) in
        let size : (if ltb (length rest) (room - 1) then length rest else room - 1) ≡ n =
          ground (arith, documented.bounded frame.dlc, next.room) in
        let some_room : (room == 0) ≡ false = ground (arith, next.room) in
        let same : (k % 16 == k % 16) ≡ true = (==_iff (k % 16) (k % 16)).1 refl in
        let fits : leb (0 + n) (cut can) ≡ true = ground arith in
        let left : (length rest + 4096 - n) % 4096 ≡ length (drop (cut can) rest) =
          ground (arith, length-drop (cut can) rest) in
        rw (is_cf, number, numbered, same, some_room, missing, empty, size, fits, left, next.holds)
          refl
