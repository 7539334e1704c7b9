-- ===== src/LogicAnalyzer/Rate.antt =====
-- The settings of an analyser stay in range, whatever order its entry points are called in.
use plat.Base.{
  ℕ, ◌/◌, ◌≤◌, ◌<◌, ◌≡◌, ◌≢◌, refl, Bool, true, false, Option, List, arith, leb, ◌==◌,
  if◌then◌else◌,
}
use plat.RingBuffer.{Init, failed, hangs, ready, Ring}
use plat.LogicAnalyzer.{Analyzer, TriggerConfig, LogicConfig, still_armed, after_sample}
use plat.LogicAnalyzer.Control.{
  max_rate_limit, fixed_max, fixed_rate, fixed_config, period_of, idle_analyzer, created, no_memory,
  never, analyzer_init, needs_arming, start, stop, set_sample_rate, clamped_rate, with_rate,
  set_trigger, arm, set_reader, config_or_default,
}

-- The rate is 1 to the maximum, which is 100 MHz at most, the period is its inverse, the trigger's
-- channel exists, and only an analyser with a trigger mode waits for it.
pub record IsRated (la : Analyzer) : Type 0 where
  pub positive : 1 ≤ la.config.sample_rate_hz
  pub at_most : la.config.sample_rate_hz ≤ la.config.max_sample_rate_hz
  pub limited : la.config.max_sample_rate_hz ≤ max_rate_limit
  pub period : la.period_ns ≡ 1000000000 / la.config.sample_rate_hz
  pub channel : la.trigger.channel < 8
  pub waits : la.armed ≡ true → needs_arming la.trigger.mode ≡ true

-- At 100 MHz at most a period is 10 ns at least: the source's test for 0 never holds.
period_of-quotient :
    (rate : ℕ) → rate ≤ max_rate_limit → 1 ≤ rate → period_of rate ≡ 1000000000 / rate
unfolding period_of
period_of-quotient rate top one = ground arith

fixed_max-range : (m : ℕ) → (1 ≤ fixed_max m) × (fixed_max m ≤ max_rate_limit)
unfolding fixed_max
fixed_max-range m = ground arith

fixed_rate-range : (rate m : ℕ) → 1 ≤ m → (1 ≤ fixed_rate rate m) × (fixed_rate rate m ≤ m)
unfolding fixed_rate
fixed_rate-range rate m h = ground arith

idle-IsRated : (c : LogicConfig) (ring : Ring) → IsRated (idle_analyzer (fixed_config c) ring)
unfolding idle_analyzer fixed_config
idle-IsRated c ring =
    let (low, top) = fixed_max-range c.max_sample_rate_hz in
    let (one, le) = fixed_rate-range c.sample_rate_hz (fixed_max c.max_sample_rate_hz) low in
    record {
      positive = one;
      at_most = le;
      limited = top;
      period = period_of-quotient _ (omega arith) one;
      channel = omega arith;
      waits = λ e. absurd (ground arith);
    }

ready-IsRated :
    (c : LogicConfig) (r : Init) (la : Analyzer)
    → elim r [
      | failed ↦ no_memory
      | hangs ↦ never
      | ready ring ↦ created (idle_analyzer (fixed_config c) ring)
    ]
      ≡ created la
    → IsRated la
ready-IsRated c failed la e = absurd cc
ready-IsRated c hangs la e = absurd cc
ready-IsRated c (ready ring) la e =
    let same : la ≡ idle_analyzer (fixed_config c) ring = cc in rw same (idle-IsRated c ring)

created-IsRated :
    (calloc : ℕ → Option (List ℕ)) (config : Option LogicConfig) (la : Analyzer)
    → analyzer_init calloc config ≡ created la
    → IsRated la
unfolding analyzer_init
created-IsRated calloc config la e = ready-IsRated (config_or_default config) _ la e

-- One call of an entry point, or one sample of the thread.
pub data Step (la : Analyzer) : Analyzer → Type 0 where
  rate_set : (rate : ℕ) → Step la (set_sample_rate la rate).1
  trigger_set : (t : TriggerConfig) → Step la (set_trigger la t).1
  reader_set : (reader : Option (ℕ → ℕ)) → Step la (set_reader la reader)
  rearmed : Step la (arm la).1
  started : (made : Bool) (errno : ℕ) → Step la (start la made errno).1
  stopped : Step la (stop la).1
  sampled : Step la (after_sample la)

-- A call that tests a condition keeps the settings in range if each of its branches does.
branches-IsRated :
    (b : Bool) (x y : ℕ × Analyzer)
    → (b ≡ true → IsRated x.1)
    → (b ≡ false → IsRated y.1)
    → IsRated (if b then x else y).1
branches-IsRated true x y p q = p refl
branches-IsRated false x y p q = q refl

with_rate-IsRated :
    (la : Analyzer) (rate : ℕ)
    → 1 ≤ rate
    → rate ≤ la.config.max_sample_rate_hz
    → IsRated la
    → IsRated (with_rate la rate)
unfolding with_rate
with_rate-IsRated la rate one top h = record {
  positive = one;
  at_most = top;
  limited = h.limited;
  period = period_of-quotient rate (omega (arith, h.limited)) one;
  channel = h.channel;
  waits = h.waits;
}

clamped_rate-range :
    (la : Analyzer) (rate : ℕ)
    → IsRated la
    → rate ≢ 0
    → (1 ≤ clamped_rate la rate) × (clamped_rate la rate ≤ la.config.max_sample_rate_hz)
unfolding clamped_rate
clamped_rate-range la rate h nz = ground (arith, h.positive, h.at_most)

set_sample_rate-IsRated :
    (la : Analyzer) (rate : ℕ) → IsRated la → IsRated (set_sample_rate la rate).1
unfolding set_sample_rate
set_sample_rate-IsRated la rate h =
    branches-IsRated (rate == 0) _ _ (λ e. h)
      (λ e.
        let (one, top) = clamped_rate-range la rate h (ground arith) in
        with_rate-IsRated la (clamped_rate la rate) one top h)

set_trigger-IsRated :
    (la : Analyzer) (t : TriggerConfig) → IsRated la → IsRated (set_trigger la t).1
unfolding set_trigger
set_trigger-IsRated la t h =
    branches-IsRated (leb 8 t.channel) _ _ (λ e. h)
      (λ e. record {
        positive = h.positive;
        at_most = h.at_most;
        limited = h.limited;
        period = h.period;
        channel = ground arith;
        waits = λ a. a;
      })

-- A call that leaves the settings alone.
with_armed-IsRated :
    (la la' : Analyzer)
    → la'.config ≡ la.config
    → la'.period_ns ≡ la.period_ns
    → la'.trigger ≡ la.trigger
    → (la'.armed ≡ true → needs_arming la.trigger.mode ≡ true)
    → IsRated la
    → IsRated la'
with_armed-IsRated la la' c p t w h = record {
  positive = rw c h.positive;
  at_most = rw c h.at_most;
  limited = rw c h.limited;
  period = rw (c, p) h.period;
  channel = rw t h.channel;
  waits = rw t w;
}

start-IsRated :
    (la : Analyzer) (made : Bool) (errno : ℕ) → IsRated la → IsRated (start la made errno).1
unfolding start
start-IsRated la made errno h =
    branches-IsRated la.running _ _ (λ e. h)
      (λ e.
        branches-IsRated made _ _ (λ e'. with_armed-IsRated la _ refl refl refl (λ a. a) h)
          (λ e'. with_armed-IsRated la _ refl refl refl (λ a. a) h))

arm-IsRated : (la : Analyzer) → IsRated la → IsRated (arm la).1
unfolding arm
arm-IsRated la h =
    branches-IsRated (needs_arming la.trigger.mode) _ _
      (λ e. with_armed-IsRated la _ refl refl refl (λ a. e) h) (λ e. h)

stop-IsRated : (la : Analyzer) → IsRated la → IsRated (stop la).1
unfolding stop
stop-IsRated la h =
    branches-IsRated la.running _ _ (λ e. with_armed-IsRated la _ refl refl refl h.waits h) (λ e. h)

after_sample-IsRated : (la : Analyzer) → IsRated la → IsRated (after_sample la)
unfolding after_sample still_armed
after_sample-IsRated la h = with_armed-IsRated la _ refl refl refl (λ e. h.waits (ground arith)) h

pub Step-IsRated : {la la' : Analyzer} → Step la la' → IsRated la → IsRated la'
unfolding set_reader
Step-IsRated {la} (rate_set rate) h = set_sample_rate-IsRated la rate h
Step-IsRated {la} (trigger_set t) h = set_trigger-IsRated la t h
Step-IsRated {la} (reader_set reader) h = with_armed-IsRated la _ refl refl refl h.waits h
Step-IsRated {la} rearmed h = arm-IsRated la h
Step-IsRated {la} (started made errno) h = start-IsRated la made errno h
Step-IsRated {la} stopped h = stop-IsRated la h
Step-IsRated {la} sampled h = after_sample-IsRated la h

pub data Reach (la : Analyzer) : Analyzer → Type 0 where
  here : Reach la la
  next : {u w : Analyzer} → Reach la u → Step u w → Reach la w

Reach-IsRated : {la u : Analyzer} → Reach la u → IsRated la → IsRated u
Reach-IsRated here h = h
Reach-IsRated (next path step) h = Step-IsRated step (Reach-IsRated path h)

-- Whatever configuration an analyser is created with, and whatever calls and samples follow, in any
-- order: its rate is at least 1 Hz and at most its maximum, which is at most 100 MHz, its period is
-- the rate's inverse in nanoseconds, its trigger's channel is one of the eight, and it waits for a
-- trigger only if one is set.
pub settings_stay-IsRated :
    (calloc : ℕ → Option (List ℕ)) (config : Option LogicConfig) {la u : Analyzer}
    → analyzer_init calloc config ≡ created la
    → Reach la u
    → IsRated u
settings_stay-IsRated calloc config e path = Reach-IsRated path (created-IsRated calloc config _ e)
