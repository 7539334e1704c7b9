-- ===== src/LogicAnalyzer/Tests.antt =====
-- The theorems of the logic analyser at concrete analysers.
use plat.Base.{
  ℕ, ◌*◌, ◌≡◌, refl, true, false, Option, none, some, List, [], ◌∷◌, arith, length, replicate, min,
}
use plat.RingBuffer.{Ring, init, rounded_capacity, is_power_of_two, fresh_ring}
use plat.RingBuffer.Inv.{IsValid, contents}
use plat.LogicAnalyzer.{
  Analyzer, Sample, LogicConfig, trigger_none, edge_rising, fill_batch, half_period, square,
  synthetic_wave, flush_batch, mode_matched,
}
use plat.LogicAnalyzer.Control.{
  fixed_config, config_or_default, idle_analyzer, analyzer_init, created, read_samples,
  set_sample_rate,
}
use plat.LogicAnalyzer.Rate.{IsRated, here, next, rate_set, settings_stay-IsRated}
use plat.LogicAnalyzer.Batch.{IsFilled, IsQuiet, untriggered_batch_fills, waiting_batch_never_ends}
use plat.LogicAnalyzer.Aligned.{IsAligned, flush_batch-appends, read_samples-whole}

-- 32 bytes of storage: two samples.
abbrev two_places : Ring
two_places = record {
  bytes = some (replicate 32 0);
  capacity = 32;
  mask = 31;
  write_pos = 0;
  read_pos = 0;
}

two_places-IsValid : IsValid 5 two_places
two_places-IsValid = record {
  geometry = record { two = omega arith; fits = omega arith; capacity_pow = refl; mask_pow = refl };
  live = refl;
  size = refl;
  write_word = omega arith;
  read_word = omega arith;
  held_fits = omega arith;
}

abbrev small_config : LogicConfig
small_config = record {
  sample_rate_hz = 0;
  max_sample_rate_hz = 0;
  ring_capacity_samples = 2;
  simulate_signal = false;
}

abbrev small : Analyzer
small = record {
  config = small_config;
  ring = two_places;
  trigger = record { mode = trigger_none; channel = 0 };
  reader = none;
  running = false;
  armed = false;
  total_samples = 0;
  dropped_samples = 0;
  last_raw_value = 0;
  period_ns = 1000;
  synthetic_counter = 0;
}

abbrev waiting : Analyzer
waiting = record small { armed = true; trigger = record { mode = edge_rising; channel = 3 } }

small-IsAligned : IsAligned 5 small
small-IsAligned = record { wide = omega arith; valid = two_places-IsValid; whole = refl }

wave_at_start : synthetic_wave 0 1000000 ≡ 64
unfolding synthetic_wave square half_period
wave_at_start = refl

wave_later : synthetic_wave 500 1000000 ≡ 51
unfolding synthetic_wave square half_period
wave_later = refl

untriggered_batch_fills_example : IsFilled 7 3 1000 (fill_batch 4 small 7 3 [])
untriggered_batch_fills_example = untriggered_batch_fills small 7 3 refl

waiting-IsQuiet : IsQuiet waiting
unfolding mode_matched
waiting-IsQuiet = record {
  waits = refl;
  channel = omega arith;
  never = refl;
  no_reader = refl;
  no_signal = refl;
  low = refl;
}

waiting_batch_never_ends_example : fill_batch 1000 waiting 7 32 [] ≡ none
waiting_batch_never_ends_example =
    waiting_batch_never_ends 1000 waiting 7 32 [] waiting-IsQuiet (omega arith)

-- A layout of a sample for the tests.
abbrev layout : Sample → List ℕ
layout s = s.channels ∷ replicate 15 0

abbrev three : List Sample
three =
    record { timestamp_ns = 0; channels = 1 }
    ∷ record { timestamp_ns = 1; channels = 2 }
    ∷ record { timestamp_ns = 2; channels = 3 }
    ∷ []

flush_batch-appends_example : IsAligned 5 (flush_batch layout small three)
flush_batch-appends_example =
    (flush_batch-appends layout (λ s. refl) 5 small three small-IsAligned (omega arith)).0

read_samples-whole_example :
    (read_samples small 7).0 * 16 ≡ min (7 * 16) (length (contents 5 small.ring))
read_samples-whole_example =
    (read_samples-whole 5 small 7 small-IsAligned (omega arith) (omega arith)).0

abbrev zeros : ℕ → Option (List ℕ)
zeros n = some (replicate n 0)

abbrev made : Analyzer
made = idle_analyzer (fixed_config small_config) two_places

creation : analyzer_init zeros (some small_config) ≡ created made
unfolding analyzer_init init rounded_capacity is_power_of_two fresh_ring fixed_config
    config_or_default
creation = refl

settings_stay-IsRated_example : IsRated (set_sample_rate made 0).1
settings_stay-IsRated_example =
    settings_stay-IsRated zeros (some small_config) creation (next here (rate_set 0))
