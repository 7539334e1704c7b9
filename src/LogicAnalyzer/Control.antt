-- ===== src/LogicAnalyzer/Control.antt =====
-- The entry points of logic_analyzer.c: init, start, stop, the settings, and reading samples. A
-- result is 0, or n for -n; a null argument is not modelled.
use plat.Base.{
  ℕ, zero, suc, ◌+◌, ◌-◌, ◌/◌, Bool, true, false, ◌&&◌, ◌||◌, Option, none, some, List, [], ◌++◌,
  ltb, leb, ◌==◌, if◌then◌else◌,
}
use plat.Base.Words.{sub_size, mul_size}
use plat.RingBuffer.{Ring, failed, hangs, ready, init, read, destroy}
use plat.LogicAnalyzer.{
  Analyzer, LogicConfig, TriggerConfig, TriggerMode, trigger_none, edge_rising, edge_falling,
  level_high, level_low, sample_size,
}

-- EDT_MAX_SAMPLE_RATE_HZ.
abbrev pub max_rate_limit : ℕ
max_rate_limit = 100000000

abbrev pub einval : ℕ
einval = 22

abbrev pub enomem : ℕ
enomem = 12

unfoldable pub default_config : LogicConfig
default_config = record {
  sample_rate_hz = 1000000;
  max_sample_rate_hz = max_rate_limit;
  ring_capacity_samples = 65536;
  simulate_signal = true;
}

unfoldable pub fixed_max : ℕ → ℕ
fixed_max m = if (m == 0) || ltb max_rate_limit m then max_rate_limit else m

unfoldable pub fixed_rate : ℕ → ℕ → ℕ
fixed_rate rate limit =
    let r = if rate == 0 then 1000000 else rate in if ltb limit r then limit else r

unfoldable pub fixed_config : LogicConfig → LogicConfig
fixed_config c = record c {
  max_sample_rate_hz = fixed_max c.max_sample_rate_hz;
  sample_rate_hz = fixed_rate c.sample_rate_hz (fixed_max c.max_sample_rate_hz);
  ring_capacity_samples = if c.ring_capacity_samples == 0 then 65536 else c.ring_capacity_samples;
}

unfoldable pub config_or_default : Option LogicConfig → LogicConfig
config_or_default none = default_config
config_or_default (some c) = c

unfoldable pub period_of : ℕ → ℕ
period_of rate = if 1000000000 / rate == 0 then 1 else 1000000000 / rate

unfoldable pub idle_analyzer : LogicConfig → Ring → Analyzer
idle_analyzer c ring = record {
  config = c;
  ring = ring;
  trigger = record { mode = trigger_none; channel = 0 };
  reader = none;
  running = false;
  armed = false;
  total_samples = 0;
  dropped_samples = 0;
  last_raw_value = 0;
  period_ns = period_of c.sample_rate_hz;
  synthetic_counter = 0;
}

-- What `edt_logic_analyzer_init` leaves: -ENOMEM, no return, or an analyser.
pub data AnalyzerInit : Type 0 where
  no_memory : AnalyzerInit
  never : AnalyzerInit
  created : Analyzer → AnalyzerInit

unfoldable pub analyzer_init : (ℕ → Option (List ℕ)) → Option LogicConfig → AnalyzerInit
analyzer_init calloc config =
    let c = fixed_config (config_or_default config) in
    elim (init calloc (mul_size c.ring_capacity_samples sample_size)) [
      | failed ↦ no_memory
      | hangs ↦ never
      | ready ring ↦ created (idle_analyzer c ring)
    ]

unfoldable pub needs_arming : TriggerMode → Bool
needs_arming trigger_none = false
needs_arming edge_rising = true
needs_arming edge_falling = true
needs_arming level_high = true
needs_arming level_low = true

-- `created` is whether pthread_create succeeds, `errno` what the C variable holds then.
unfoldable pub start : Analyzer → Bool → ℕ → ℕ × Analyzer
start la made errno =
    let ready_la = record la { armed = needs_arming la.trigger.mode; running = made } in
    if la.running then (0, la) else if made then (0, ready_la) else (errno, ready_la)

-- The call returns once the sampling thread has ended.
unfoldable pub stop : Analyzer → ℕ × Analyzer
stop la = if la.running then (0, record la { running = false }) else (0, la)

unfoldable pub analyzer_destroy : Analyzer → Analyzer
analyzer_destroy la =
    let (code, stopped) = stop la in record stopped { ring = destroy stopped.ring }

unfoldable pub with_rate : Analyzer → ℕ → Analyzer
with_rate la rate = record la {
  config = record la.config { sample_rate_hz = rate };
  period_ns = period_of rate;
}

unfoldable pub clamped_rate : Analyzer → ℕ → ℕ
clamped_rate la rate =
    if ltb la.config.max_sample_rate_hz rate then la.config.max_sample_rate_hz else rate

unfoldable pub set_sample_rate : Analyzer → ℕ → ℕ × Analyzer
set_sample_rate la rate =
    if rate == 0 then (einval, la) else (0, with_rate la (clamped_rate la rate))

unfoldable pub get_sample_rate : Analyzer → ℕ
get_sample_rate la = la.config.sample_rate_hz

unfoldable pub set_trigger : Analyzer → TriggerConfig → ℕ × Analyzer
set_trigger la t =
    if leb 8 t.channel
    then (einval, la)
    else (0, record la { trigger = t; armed = needs_arming t.mode })

unfoldable pub arm : Analyzer → ℕ × Analyzer
arm la = if needs_arming la.trigger.mode then (0, record la { armed = true }) else (0, la)

unfoldable pub set_reader : Analyzer → Option (ℕ → ℕ) → Analyzer
set_reader la reader = record la { reader = reader }

-- The number of samples, and the bytes that stand at `out_samples`.
unfoldable pub read_samples : Analyzer → ℕ → ℕ × List ℕ × Analyzer
read_samples la max_samples =
    let (n, bytes, ring) = read la.ring (mul_size max_samples sample_size) in
    if max_samples == 0 then (0, [], la) else (n / sample_size, bytes, record la { ring = ring })

-- The sampling thread and the clock run between two reads: `world` changes the analyser before the
-- n-th read, and `clock` is the time after it.
module _ (world : ℕ → Analyzer → Analyzer) (clock : ℕ → ℕ) (start_ns timeout_ms max : ℕ) where
  unfoldable pub timed_out : ℕ → Bool
  timed_out now = ltb 0 timeout_ms && leb (mul_size timeout_ms 1000000) (sub_size now start_ns)

  -- The loop of `edt_logic_analyzer_capture_blocking` on fuel, from the n-th read on.
  unfoldable pub capture_from : ℕ → ℕ → Analyzer → ℕ → List ℕ → Option (ℕ × List ℕ × Analyzer)
  capture_from zero n la total out = none
  capture_from (suc fuel) n la total out =
      let (got, bytes, after) = read_samples (world n la) (max - total) in
      let rest = capture_from fuel (suc n) after (total + got) (out ++ bytes) in
      if leb max total
      then some (total, out, la)
      else if leb max (total + got) || timed_out (clock n)
      then some (total + got, out ++ bytes, after)
      else rest
