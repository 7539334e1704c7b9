-- ===== src/Sump/Tests.antt =====
-- The theorems of the SUMP server at concrete sessions.
use plat.Base.{ℕ, List, ◌-◌, ◌^◌, ◌≡◌, ◌↔◌, refl, true, false, none, [], ◌∷◌, arith}
use plat.RingBuffer.{Ring}
use plat.LogicAnalyzer.{Analyzer, trigger_none}
use plat.LogicAnalyzer.Rate.{IsRated}
use plat.Sump.Session.{Session, apply_session, le_bytes, le_value}
use plat.Sump.Apply.{IsApplied, apply_session-IsApplied, apply_session-crashes_iff}
use plat.Sump.Client.{goes_on, set_parameter, take_parameter, receive_parameter}

abbrev no_ring : Ring
no_ring = record { bytes = none; capacity = 0; mask = 0; write_pos = 0; read_pos = 0 }

abbrev idle : Analyzer
idle = record {
  config = record {
    sample_rate_hz = 1000000;
    max_sample_rate_hz = 100000000;
    ring_capacity_samples = 65536;
    simulate_signal = true;
  };
  ring = no_ring;
  trigger = record { mode = trigger_none; channel = 0 };
  reader = none;
  running = false;
  armed = false;
  total_samples = 0;
  dropped_samples = 0;
  last_raw_value = 0;
  period_ns = 1000;
  synthetic_counter = 0;
}

idle-IsRated : IsRated idle
idle-IsRated = record {
  positive = omega arith;
  at_most = omega arith;
  limited = omega arith;
  period = refl;
  channel = omega arith;
  waits = λ e. absurd (ground arith);
}

-- Lines 2 and 5 in the mask.
abbrev masked : Session
masked = record {
  divider = 99;
  read_count = 1023;
  trigger_mask = 36;
  trigger_value = 4;
  trigger_mode = 0;
}

apply_session-IsApplied_example : IsApplied idle masked (apply_session idle masked)
apply_session-IsApplied_example =
    apply_session-IsApplied idle masked idle-IsRated (omega arith) (omega arith)

apply_session-crashes_iff_example : (apply_session idle masked ≡ none) ↔ (99 ≡ 2 ^ 32 - 1)
apply_session-crashes_iff_example = apply_session-crashes_iff idle masked (omega arith)

-- The lowest byte first.
ten_thousand : le_bytes 10000 ≡ 16 ∷ 39 ∷ 0 ∷ 0 ∷ []
unfolding le_bytes
ten_thousand = refl

abbrev no_capture : Analyzer → ℕ → List ℕ × Analyzer
no_capture la n = ([], la)

-- The divider 10000, the identification, a capture, and a read count that is cut off.
abbrev commands : List ℕ
commands = 128 ∷ 16 ∷ 39 ∷ 0 ∷ 0 ∷ 2 ∷ 1 ∷ 129 ∷ 1 ∷ []

divider_set :
    receive_parameter 0
      (λ i. 7)
      128
      (record { analyzer = idle; session = masked; input = []; output = [] })
      (16 ∷ 39 ∷ 0 ∷ 0 ∷ 1 ∷ [])
    ≡ goes_on (record {
      analyzer = idle;
      session = record masked { divider = 10000 };
      input = 1 ∷ [];
      output = [];
    })
unfolding receive_parameter take_parameter set_parameter le_value
divider_set = refl
