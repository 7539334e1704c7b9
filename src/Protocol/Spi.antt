-- ===== src/Protocol/Spi.antt =====
-- `edt_decode_spi`: a byte of each data line for every eight sampling edges of the clock.
pub mod Edge
use plat.Base.{
  ℕ, zero, suc, ◌+◌, ◌-◌, Bool, true, false, not, ◌&&◌, ◌||◌, Option, none, some, List, [], ◌∷◌,
  ◌++◌, length, ltb, leb, ◌==◌, if◌then◌else◌,
}
use plat.Base.Words.{to_u8}
use plat.LogicAnalyzer.{Sample}
use plat.Protocol.{Event, spi, bit, shift_in}

pub record SpiConfig : Type 0 where
  pub clk_channel : ℕ
  pub cs_channel : ℕ
  pub mosi_channel : ℕ
  pub miso_channel : ℕ
  pub cpol : ℕ
  pub cpha : ℕ

pub record SpiState : Type 0 where
  pub active : Bool
  pub bits : ℕ
  pub mosi_byte : ℕ
  pub miso_byte : ℕ

unfoldable pub spi_idle : SpiState
spi_idle = record { active = false; bits = 0; mosi_byte = 0; miso_byte = 0 }

unfoldable pub spi_event : Sample → ℕ → ℕ → Event
spi_event s mosi miso = record {
  type = spi;
  timestamp_ns = s.timestamp_ns;
  value0 = mosi;
  value1 = miso;
}

-- The state at a sample at which the chip is selected, before the clock is looked at.
unfoldable pub selected : SpiState → SpiState
selected st =
    if st.active then st else record { active = true; bits = 0; mosi_byte = 0; miso_byte = 0 }

-- A bit of each line.
unfoldable pub spi_shift : SpiState → Sample → ℕ → ℕ → SpiState × Option Event
spi_shift st s mosi_bit miso_bit =
    let mosi = shift_in st.mosi_byte mosi_bit in
    let miso = shift_in st.miso_byte miso_bit in
    if to_u8 (st.bits + 1) == 8
    then (record st { bits = 0; mosi_byte = 0; miso_byte = 0 }, some (spi_event s mosi miso))
    else (record st { bits = to_u8 (st.bits + 1); mosi_byte = mosi; miso_byte = miso }, none)

module _ (cfg : SpiConfig) where
  unfoldable pub idle_level : ℕ
  idle_level = if cfg.cpol == 0 then 0 else 1

  unfoldable pub sample_on_rising : Bool
  sample_on_rising = ((cfg.cpha == 0) && (cfg.cpol == 0)) || ((cfg.cpha == 1) && (cfg.cpol == 1))

  unfoldable pub sample_edge : ℕ → ℕ → Bool
  sample_edge prev_clk clk =
      if sample_on_rising then (prev_clk == 0) && (clk == 1) else (prev_clk == 1) && (clk == 0)

  -- The test that passes over an edge.
  unfoldable pub skipped_edge : SpiState → ℕ → Bool
  skipped_edge st prev_clk = (prev_clk == idle_level) && (st.bits == 0) && (cfg.cpha == 1)

  -- A round of the loop, for a sample and the one before it.
  unfoldable pub spi_step : SpiState → Sample → Sample → SpiState × Option Event
  spi_step st before s =
      let prev_clk = bit before.channels cfg.clk_channel in
      let clk = bit s.channels cfg.clk_channel in
      if bit s.channels cfg.cs_channel == 1
      then (record st { active = false; bits = 0 }, none)
      else if not (sample_edge prev_clk clk)
      then (selected st, none)
      else if skipped_edge (selected st) prev_clk
      then (selected st, none)
      else spi_shift (selected st) s (bit s.channels cfg.mosi_channel)
          (bit s.channels cfg.miso_channel)

  unfoldable pub spi_from : SpiState → ℕ → Sample → List Sample → List Event
  spi_from st room before [] = []
  spi_from st room before (s ∷ ss) = elim room [
    | zero ↦ []
    | suc places ↦
        let (st', event) = spi_step st before s in
        elim event [ none ↦ spi_from st' (suc places) s ss | some e ↦ e ∷ spi_from st' places s ss ]
  ]

unfoldable pub decode_spi : List Sample → SpiConfig → ℕ → List Event
decode_spi [] cfg max_events = []
decode_spi (s ∷ ss) cfg max_events =
    if leb 8 cfg.clk_channel
      || leb 8 cfg.cs_channel
      || leb 8 cfg.mosi_channel
      || leb 8 cfg.miso_channel
    then []
    else spi_from cfg spi_idle max_events s ss
