-- ===== src/Protocol.antt =====
-- embedded_debug_toolkit/src/protocol/protocol_decoder.c and include/protocol_decoder.h: what the three
-- decoders share. An event has no summary text; a null argument is not modelled.
pub mod Uart
pub mod I2c
pub mod Spi
mod Tests
use plat.Base.{
  ℕ, ◌+◌, ◌*◌, ◌/◌, ◌%◌, ◌^◌, ◌≡◌, Option, none, some, List, [], ◌∷◌, ◌++◌, length, get_elem?,
}
use plat.Base.Words.{to_u8}
use plat.LogicAnalyzer.{Sample}

pub data ProtoType : Type 0 where
  uart : ProtoType
  i2c : ProtoType
  spi : ProtoType

-- `edt_proto_event_t`.
pub record Event : Type 0 where
  pub type : ProtoType
  pub timestamp_ns : ℕ
  pub value0 : ℕ
  pub value1 : ℕ

-- `edt_bit`.
unfoldable pub bit : ℕ → ℕ → ℕ
bit value channel = value / 2 ^ channel % 2

-- `(uint8_t)((byte << 1U) | bit)`
unfoldable pub shift_in : ℕ → ℕ → ℕ
shift_in byte b = to_u8 (byte * 2 + b)

-- A byte from bits that come most significant first.
abbrev pub msb_first : ℕ → List ℕ → ℕ
msb_first byte [] = byte
msb_first byte (b ∷ bs) = msb_first (shift_in byte b) bs

abbrev pub to_list : Option Event → List Event
to_list none = []
to_list (some e) = e ∷ []
