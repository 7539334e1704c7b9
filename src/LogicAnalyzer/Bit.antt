-- ===== src/LogicAnalyzer/Bit.antt =====
-- The trigger of logic_analyzer.c looks at a line of the sample: bit `channel` of its byte.
use native.Mathlib.Nat.{one-le-pow, pow-le-pow_right}
use plat.Base.{ℕ, ◌/◌, ◌%◌, ◌^◌, ◌<◌, ◌≡◌, ap₂, arith}
use plat.Base.Words.{to_u8}
use plat.Base.Bits.{bit_and-pow}
use plat.LogicAnalyzer.{TriggerConfig, mask_bit, mode_matched, trigger_matched}

-- The level of a line.
abbrev pub level : ℕ → ℕ → ℕ
level value channel = value / 2 ^ channel % 2

pub mask_bit-level :
    (value channel : ℕ) → channel < 8 → mask_bit value channel ≡ level value channel
unfolding mask_bit
mask_bit-level value channel h =
    let mask : to_u8 (2 ^ channel) ≡ 2 ^ channel =
      omega (arith, pow-le-pow_right {n = 2} (omega arith) {i = channel} {j = 7} (omega arith)) in
    rw mask (ground (arith, bit_and-pow channel value, one-le-pow channel 2))

-- On a channel that exists the trigger compares the levels of its line in the two samples.
pub trigger_matched-level :
    (t : TriggerConfig) (previous current : ℕ)
    → t.channel < 8
    → trigger_matched t previous current
      ≡ mode_matched t.mode (level previous t.channel) (level current t.channel)
unfolding trigger_matched
trigger_matched-level t previous current h =
    ap₂ (mode_matched t.mode) (mask_bit-level previous t.channel h)
      (mask_bit-level current t.channel h)
