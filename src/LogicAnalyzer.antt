-- ===== src/LogicAnalyzer.antt =====
-- embedded_debug_toolkit/src/logic/logic_analyzer.c and include/logic_analyzer.h: the types, the
-- synthetic signal, the trigger, and the sampling thread. `Control` has the other entry points.
pub mod Control
pub mod Bit
pub mod Rate
pub mod Batch
pub mod Aligned
mod Tests
use Prim.Native.Nat.{bit_and}
use plat.Base.{
  ℕ, zero, suc, ◌-◌, ◌*◌, ◌/◌, ◌%◌, ◌^◌, ◌+◌, Bool, true, not, ◌&&◌, Option, none, some, List, [],
  ◌∷◌, ◌++◌, ltb, leb, ◌==◌, if◌then◌else◌, length,
}
use plat.Base.Words.{add_size, mul_size, to_u8}
use plat.RingBuffer.{Ring, write}

-- `edt_trigger_mode_t`.
pub data TriggerMode : Type 0 where
  trigger_none : TriggerMode
  edge_rising : TriggerMode
  edge_falling : TriggerMode
  level_high : TriggerMode
  level_low : TriggerMode

pub record TriggerConfig : Type 0 where
  pub mode : TriggerMode
  pub channel : ℕ

-- `edt_logic_sample_t`.
pub record Sample : Type 0 where
  pub timestamp_ns : ℕ
  pub channels : ℕ

pub record LogicConfig : Type 0 where
  pub sample_rate_hz : ℕ
  pub max_sample_rate_hz : ℕ
  pub ring_capacity_samples : ℕ
  pub simulate_signal : Bool

-- `edt_logic_analyzer_t` without the thread handle. A reader gives the value of the input at the n-th
-- sample.
pub record Analyzer : Type 0 where
  pub config : LogicConfig
  pub ring : Ring
  pub trigger : TriggerConfig
  pub reader : Option (ℕ → ℕ)
  pub running : Bool
  pub armed : Bool
  pub total_samples : ℕ
  pub dropped_samples : ℕ
  pub last_raw_value : ℕ
  pub period_ns : ℕ
  pub synthetic_counter : ℕ

-- Half a period of a signal of the rate `divisor / 2`, in samples.
unfoldable pub half_period : ℕ → ℕ → ℕ
half_period rate divisor = if rate / divisor == 0 then 1 else rate / divisor

-- `weight` in the halves of the signal that are high.
unfoldable pub square : ℕ → ℕ → ℕ → ℕ
square tick half weight = if tick / half % 2 == 0 then 0 else weight

-- Each `|=` of the source sets another bit, so that the sum has them all.
unfoldable pub synthetic_wave : ℕ → ℕ → ℕ
synthetic_wave tick rate =
    if rate == 0
    then 0
    else square tick (half_period rate 2000) 1
      + square tick (half_period rate 10000) 2
      + square tick (half_period rate 20000) 4
      + square tick (half_period rate 500000) 8
      + square tick 16 16
      + square tick 32 32
      + (if tick / 128 % 2 == 0 then 64 else 0)
      + square tick 1024 128

-- `(value & bit_mask) ? 1 : 0`
unfoldable pub mask_bit : ℕ → ℕ → ℕ
mask_bit value channel = if bit_and value (to_u8 (2 ^ channel)) == 0 then 0 else 1

unfoldable pub mode_matched : TriggerMode → ℕ → ℕ → Bool
mode_matched trigger_none prev_bit curr_bit = true
mode_matched edge_rising prev_bit curr_bit = (prev_bit == 0) && (curr_bit == 1)
mode_matched edge_falling prev_bit curr_bit = (prev_bit == 1) && (curr_bit == 0)
mode_matched level_high prev_bit curr_bit = curr_bit == 1
mode_matched level_low prev_bit curr_bit = curr_bit == 0

unfoldable pub trigger_matched : TriggerConfig → ℕ → ℕ → Bool
trigger_matched t previous current =
    mode_matched t.mode (mask_bit previous t.channel) (mask_bit current t.channel)

-- `current_raw` of the sampling loop.
unfoldable pub read_raw : Analyzer → ℕ
read_raw la = elim la.reader [
  | some f ↦ f la.synthetic_counter
  | none ↦
      if la.config.simulate_signal
      then synthetic_wave la.synthetic_counter la.config.sample_rate_hz
      else 0
]

-- `armed` after the trigger has been looked at.
unfoldable pub still_armed : Analyzer → Bool
still_armed la = la.armed && not (trigger_matched la.trigger la.last_raw_value (read_raw la))

-- A round of the inner loop, for the analyser and for the batch that it fills.
unfoldable pub after_sample : Analyzer → Analyzer
after_sample la = record la {
  armed = still_armed la;
  last_raw_value = read_raw la;
  total_samples = add_size la.total_samples 1;
  synthetic_counter = add_size la.synthetic_counter 1;
}

unfoldable pub new_sample : Analyzer → ℕ → ℕ → Sample
new_sample la start count = record {
  timestamp_ns = add_size start (mul_size count la.period_ns);
  channels = read_raw la;
}

unfoldable pub after_batch : Analyzer → ℕ → List Sample → List Sample
after_batch la start batch =
    if still_armed la then batch else batch ++ (new_sample la start (length batch) ∷ [])

-- The inner loop on fuel: `none` is a loop that has not ended.
unfoldable pub fill_batch : ℕ → Analyzer → ℕ → ℕ → List Sample → Option (Analyzer × List Sample)
fill_batch zero la start target batch = none
fill_batch (suc fuel) la start target batch =
    let rest = fill_batch fuel (after_sample la) start target (after_batch la start batch) in
    if ltb (length batch) target then rest else some (la, batch)

unfoldable pub batch_target : Analyzer → ℕ
batch_target la = if leb 1000000 la.config.sample_rate_hz then 256 else 32

-- `sizeof(edt_logic_sample_t)`: the eight bytes of the time, the channels' byte, and padding.
abbrev pub sample_size : ℕ
sample_size = 16

-- How a sample stands in memory is the compiler's.
module _ (sample_bytes : Sample → List ℕ) where
  unfoldable pub batch_bytes : List Sample → List ℕ
  batch_bytes [] = []
  batch_bytes (s ∷ ss) = sample_bytes s ++ batch_bytes ss

  -- A batch goes into the ring, and what does not fit is counted.
  unfoldable pub flush_batch : Analyzer → List Sample → Analyzer
  flush_batch la batch =
      let to_write = length batch * sample_size in
      let (written, ring) = write la.ring (batch_bytes batch) to_write in
      let dropped = (to_write - written) / sample_size in
      if length batch == 0
      then la
      else if ltb written to_write
      then record la { ring = ring; dropped_samples = add_size la.dropped_samples dropped }
      else record la { ring = ring }

  -- A round of the outer loop of the sampling thread, at time `now`.
  unfoldable pub sample_round : ℕ → Analyzer → ℕ → Option Analyzer
  sample_round fuel la now = elim (fill_batch fuel la now (batch_target la) []) [
    | none ↦ none
    | some (after, batch) ↦ some (flush_batch after batch)
  ]
