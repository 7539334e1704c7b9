-- ===== src/Protocol/I2c.antt =====
-- `edt_decode_i2c`: bytes, most significant bit first, each with its acknowledge bit.
pub mod Byte
use plat.Base.{
  ℕ, zero, suc, ◌+◌, ◌-◌, Bool, true, false, not, ◌&&◌, ◌||◌, Option, none, some, List, [], ◌∷◌,
  ◌++◌, length, ltb, leb, ◌==◌, if◌then◌else◌,
}
use plat.Base.Words.{to_u8}
use plat.LogicAnalyzer.{Sample}
use plat.Protocol.{Event, i2c, bit, shift_in, to_list}

pub record I2cConfig : Type 0 where
  pub scl_channel : ℕ
  pub sda_channel : ℕ

-- The variables of the loop.
pub record I2cState : Type 0 where
  pub active : Bool
  pub bit_count : ℕ
  pub current : ℕ
  pub expect_ack : Bool

unfoldable pub i2c_idle : I2cState
i2c_idle = record { active = false; bit_count = 0; current = 0; expect_ack = false }

unfoldable pub i2c_event : I2cState → Sample → ℕ → Event
i2c_event st s sda = record {
  type = i2c;
  timestamp_ns = s.timestamp_ns;
  value0 = st.current;
  value1 = if sda == 0 then 1 else 0;
}

-- A data bit.
unfoldable pub data_bit : I2cState → ℕ → I2cState
data_bit st sda =
    let eighth = to_u8 (st.bit_count + 1) == 8 in
    record st {
      current = shift_in st.current sda;
      bit_count = if eighth then 0 else to_u8 (st.bit_count + 1);
      expect_ack = eighth;
    }

-- A rising edge of the clock in a transfer.
unfoldable pub i2c_clock : I2cState → Sample → ℕ → I2cState × Option Event
i2c_clock st s sda =
    if st.expect_ack
    then (record st { current = 0; expect_ack = false }, some (i2c_event st s sda))
    else (data_bit st sda, none)

module _ (cfg : I2cConfig) where
  -- A round of the loop, for a sample and the one before it.
  unfoldable pub i2c_step : I2cState → Sample → Sample → I2cState × Option Event
  i2c_step st before s =
      let prev_scl = bit before.channels cfg.scl_channel in
      let prev_sda = bit before.channels cfg.sda_channel in
      let scl = bit s.channels cfg.scl_channel in
      let sda = bit s.channels cfg.sda_channel in
      if (prev_sda == 1) && (sda == 0) && (scl == 1)
      then (record { active = true; bit_count = 0; current = 0; expect_ack = false }, none)
      else if (prev_sda == 0) && (sda == 1) && (scl == 1)
      then (record st { active = false }, none)
      else if not st.active
      then (st, none)
      else if (prev_scl == 0) && (scl == 1)
      then i2c_clock st s sda
      else (st, none)

  -- The loop, while there is room for `room` events.
  unfoldable pub i2c_from : I2cState → ℕ → Sample → List Sample → List Event
  i2c_from st room before [] = []
  i2c_from st room before (s ∷ ss) = elim room [
    | zero ↦ []
    | suc places ↦
        let (st', event) = i2c_step st before s in
        elim event [ none ↦ i2c_from st' (suc places) s ss | some e ↦ e ∷ i2c_from st' places s ss ]
  ]

unfoldable pub decode_i2c : List Sample → I2cConfig → ℕ → List Event
decode_i2c [] cfg max_events = []
decode_i2c (s ∷ ss) cfg max_events =
    if leb 8 cfg.scl_channel || leb 8 cfg.sda_channel
    then []
    else i2c_from cfg i2c_idle max_events s ss
