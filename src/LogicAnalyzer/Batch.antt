-- ===== src/LogicAnalyzer/Batch.antt =====
-- The inner loop of the sampling thread of logic_analyzer.c: when it ends, and what it leaves.
use native.Mathlib.Nat.{zero-div}
use plat.Base.{
  ℕ, zero, suc, ◌+◌, ◌^◌, ◌<◌, ◌≡◌, refl, ap, ◌∙◌, true, false, Option, none, some, List, [], ◌∷◌,
  ◌++◌, length, length-append, arith,
}
use plat.Base.Words.{add_size, mul_size}
use plat.LogicAnalyzer.{
  Analyzer, Sample, mask_bit, mode_matched, trigger_matched, read_raw, still_armed, after_sample,
  new_sample, after_batch, fill_batch,
}
use plat.LogicAnalyzer.Bit.{mask_bit-level}

-- The samples' times, from the one numbered `i` on, are a period apart.
abbrev pub Stamped : ℕ → ℕ → ℕ → List Sample → Type 0
Stamped start period i [] = Unit
Stamped start period i (s ∷ ss) =
    (s.timestamp_ns ≡ add_size start (mul_size i period)) × Stamped start period (suc i) ss

Stamped-append :
    (start period i : ℕ) (batch : List Sample) (s : Sample)
    → Stamped start period i batch
    → s.timestamp_ns ≡ add_size start (mul_size (i + length batch) period)
    → Stamped start period i (batch ++ (s ∷ []))
Stamped-append start period i [] s h e =
    (e ∙ ap (λ n. add_size start (mul_size n period)) (omega arith), record {})
Stamped-append start period i (x ∷ xs) s (p, h) e = (
  p,
  Stamped-append start period (suc i) xs s h
      (e ∙ ap (λ n. add_size start (mul_size n period)) (omega arith)),
)

-- A batch that has been filled.
pub record IsFilled (start target period : ℕ) (result : Option (Analyzer × List Sample))
    : Type 0 where
  pub after : Analyzer
  pub batch : List Sample
  pub returns : result ≡ some (after, batch)
  pub full : length batch ≡ target
  pub stamped : Stamped start period 0 batch
  pub untriggered : after.armed ≡ false

module _ (fuel : ℕ) (la : Analyzer) (start target : ℕ) (batch : List Sample) where
  fill_batch-more :
      length batch < target
      → fill_batch (suc fuel) la start target batch
        ≡ fill_batch fuel (after_sample la) start target (after_batch la start batch)
  unfolding fill_batch
  fill_batch-more h = ground arith

  fill_batch-full :
      length batch ≡ target → fill_batch (suc fuel) la start target batch ≡ some (la, batch)
  unfolding fill_batch
  fill_batch-full h = ground arith

unarmed_stays : (la : Analyzer) → la.armed ≡ false → still_armed la ≡ false
unfolding still_armed
unarmed_stays la off = rw off refl

after_batch-unarmed :
    (la : Analyzer) (start : ℕ) (batch : List Sample)
    → la.armed ≡ false
    → after_batch la start batch ≡ batch ++ (new_sample la start (length batch) ∷ [])
unfolding after_batch
after_batch-unarmed la start batch off = rw (unarmed_stays la off) refl

fill_batch-IsFilled :
    (n : ℕ) (la : Analyzer) (start target : ℕ) (batch : List Sample)
    → la.armed ≡ false
    → length batch + n ≡ target
    → Stamped start la.period_ns 0 batch
    → IsFilled start target la.period_ns (fill_batch (suc n) la start target batch)
unfolding after_sample new_sample
fill_batch-IsFilled zero la start target batch off e h = record {
  after = la;
  batch = batch;
  returns = fill_batch-full zero la start target batch (omega arith);
  full = omega arith;
  stamped = h;
  untriggered = off;
}
fill_batch-IsFilled (suc n) la start target batch off e h =
    let s : Sample = new_sample la start (length batch) in
    rw
      (
        fill_batch-more (suc n) la start target batch (omega arith),
        after_batch-unarmed la start batch off,
      )
      (fill_batch-IsFilled n (after_sample la) start target (batch ++ (s ∷ []))
        (unarmed_stays la off) (omega (arith, length-append batch (s ∷ [])))
        (Stamped-append start la.period_ns 0 batch s h
          (ap (λ n. add_size start (mul_size n la.period_ns)) (omega arith))))

-- Without a trigger to wait for, the inner loop returns: `target + 1` rounds are enough fuel. The
-- batch has `target` samples, and their times are a period apart from the start of the batch on.
pub untriggered_batch_fills :
    (la : Analyzer) (start target : ℕ)
    → la.armed ≡ false
    → IsFilled start target la.period_ns (fill_batch (suc target) la start target [])
untriggered_batch_fills la start target off =
    fill_batch-IsFilled target la start target [] off (omega arith) (record {})

-- An input that stays at 0.
pub record IsQuiet (la : Analyzer) : Type 0 where
  pub waits : la.armed ≡ true
  pub channel : la.trigger.channel < 8
  pub never : mode_matched la.trigger.mode 0 0 ≡ false
  pub no_reader : la.reader ≡ none
  pub no_signal : la.config.simulate_signal ≡ false
  pub low : la.last_raw_value ≡ 0

read_raw-quiet : (la : Analyzer) → IsQuiet la → read_raw la ≡ 0
unfolding read_raw
read_raw-quiet la q = rw (q.no_reader, q.no_signal) refl

still_armed-quiet : (la : Analyzer) → IsQuiet la → still_armed la ≡ true
unfolding still_armed trigger_matched
still_armed-quiet la q =
    let zero_bit : mask_bit 0 la.trigger.channel ≡ 0 =
      omega
        (arith, mask_bit-level 0 la.trigger.channel q.channel, zero-div (2 ^ la.trigger.channel)) in
    rw (read_raw-quiet la q, q.low, zero_bit, q.never, q.waits) refl

after_sample-IsQuiet : (la : Analyzer) → IsQuiet la → IsQuiet (after_sample la)
unfolding after_sample
after_sample-IsQuiet la q = record {
  waits = still_armed-quiet la q;
  channel = q.channel;
  never = q.never;
  no_reader = q.no_reader;
  no_signal = q.no_signal;
  low = read_raw-quiet la q;
}

after_batch-quiet :
    (la : Analyzer) (start : ℕ) (batch : List Sample)
    → IsQuiet la
    → after_batch la start batch ≡ batch
unfolding after_batch
after_batch-quiet la start batch q = rw (still_armed-quiet la q) refl

-- While an analyser waits for an edge or for a high level on an input that stays low, the inner loop
-- never ends, however many rounds it runs: it does not look at `running`, so that the thread that
-- `stop` waits for does not end either.
pub waiting_batch_never_ends :
    (fuel : ℕ) (la : Analyzer) (start target : ℕ) (batch : List Sample)
    → IsQuiet la
    → length batch < target
    → fill_batch fuel la start target batch ≡ none
unfolding fill_batch
waiting_batch_never_ends zero la start target batch q h = refl
waiting_batch_never_ends (suc fuel) la start target batch q h =
    fill_batch-more fuel la start target batch h
    ∙ waiting_batch_never_ends fuel (after_sample la) start target (after_batch la start batch)
        (after_sample-IsQuiet la q) (rw (after_batch-quiet la start batch q) h)
