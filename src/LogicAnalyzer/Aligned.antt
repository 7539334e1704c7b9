-- ===== src/LogicAnalyzer/Aligned.antt =====
-- The ring of logic_analyzer.c holds whole samples: a sample is 16 bytes, and a capacity is a power of
-- two that 16 divides.
use plat.Base.Bits.{pow-add}
use plat.Base.{
  ℕ, ◌+◌, ◌-◌, ◌*◌, ◌%◌, ◌^◌, ◌≤◌, ◌<◌, ◌≡◌, refl, ap, ◌∙◌, false, List, [], ◌∷◌, ◌++◌, length,
  length-append, arith, ◌==◌, min, take, drop, length-take, length-drop,
}
use plat.Base.Words.{mul_size}
use plat.RingBuffer.{write}
use plat.RingBuffer.Inv.{IsValid, contents}
use plat.RingBuffer.Refine.{write_refines, read_refines}
use plat.LogicAnalyzer.{Analyzer, Sample, sample_size, batch_bytes, flush_batch}
use plat.LogicAnalyzer.Control.{read_samples}

-- The bytes that the ring holds are whole samples.
pub record IsAligned (k : ℕ) (la : Analyzer) : Type 0 where
  pub wide : 4 ≤ k
  pub valid : IsValid k la.ring
  pub whole : length (contents k la.ring) % 16 ≡ 0

pow-whole : (k : ℕ) → 4 ≤ k → 2 ^ k % 16 ≡ 0
pow-whole k h =
    let split : 2 ^ k ≡ 16 * 2 ^ (k - 4) =
      ap (λ e. 2 ^ e) {x = k} {y = 4 + (k - 4)} (omega arith) ∙ pow-add 4 (k - 4) in
    rw split (omega arith)

whole_min : (a b c : ℕ) → a % 16 ≡ 0 → b % 16 ≡ 0 → c % 16 ≡ 0 → min a (b - c) % 16 ≡ 0
whole_min a b c p q r = omega arith

module _ (sample_bytes : Sample → List ℕ)
    (sized : (s : Sample) → length (sample_bytes s) ≡ sample_size) where
  length-batch_bytes :
      (batch : List Sample) → length (batch_bytes sample_bytes batch) ≡ length batch * sample_size
  unfolding batch_bytes
  length-batch_bytes [] = refl
  length-batch_bytes (s ∷ ss) = omega (
    arith,
    length-append (sample_bytes s) (batch_bytes sample_bytes ss),
    length-batch_bytes ss,
    sized s,
  )

  flush_batch-ring :
      (la : Analyzer) (batch : List Sample)
      → 0 < length batch
      → (flush_batch sample_bytes la batch).ring
        ≡ (write la.ring (batch_bytes sample_bytes batch) (length batch * sample_size)).1
  unfolding flush_batch
  flush_batch-ring la batch h = ground arith

  -- What the thread does with a batch keeps whole samples in the ring, and appends to them the bytes
  -- of the batch's first samples, as many as fit.
  pub flush_batch-appends :
      (k : ℕ) (la : Analyzer) (batch : List Sample)
      → IsAligned k la
      → 0 < length batch
      → let n = min (length batch * 16) (2 ^ k - length (contents k la.ring)) in
        let after = flush_batch sample_bytes la batch in
        IsAligned k after
        × (contents k after.ring ≡ contents k la.ring ++ take n (batch_bytes sample_bytes batch))
        × (n % 16 ≡ 0)
  flush_batch-appends k la batch a some_samples =
      let bytes = batch_bytes sample_bytes batch in
      let (count, appended, valid) =
        write_refines k la.ring a.valid bytes (length batch * 16)
          (omega (arith, length-batch_bytes batch)) in
      let ring = flush_batch-ring la batch some_samples in
      let n : ℕ = min (length batch * 16) (2 ^ k - length (contents k la.ring)) in
      let whole_count : n % 16 ≡ 0 =
        whole_min (length batch * 16) (2 ^ k) (length (contents k la.ring)) (omega arith)
          (pow-whole k a.wide) a.whole in
      let now_held : length (contents k la.ring ++ take n bytes) % 16 ≡ 0 = omega (
        arith,
        length-append (contents k la.ring) (take n bytes),
        length-take n bytes,
        length-batch_bytes batch,
        whole_count,
        a.whole,
      ) in
      (
        record { wide = a.wide; valid = rw ring valid; whole = rw (ring, appended) now_held },
        rw ring appended,
        whole_count,
      )

-- `read_samples` takes the oldest whole samples from the ring, as many as are asked for and held, and
-- no sample is torn: the bytes that it gives and those that stay are whole samples.
pub read_samples-whole :
    (k : ℕ) (la : Analyzer) (max_samples : ℕ)
    → IsAligned k la
    → 0 < max_samples
    → max_samples < 2 ^ 60
    → let n = min (max_samples * 16) (length (contents k la.ring)) in
      let (count, bytes, after) = read_samples la max_samples in
      (count * 16 ≡ n)
      × (bytes ≡ take n (contents k la.ring))
      × (contents k after.ring ≡ drop n (contents k la.ring))
      × IsAligned k after
unfolding read_samples
read_samples-whole k la max_samples a one fits =
    let (count, given, left, valid, same) = read_refines k la.ring a.valid (max_samples * 16) in
    let asked : mul_size max_samples sample_size ≡ max_samples * 16 = omega arith in
    let n : ℕ = min (max_samples * 16) (length (contents k la.ring)) in
    let whole_count : n % 16 ≡ 0 = omega (arith, a.whole) in
    let still_held : length (drop n (contents k la.ring)) % 16 ≡ 0 =
      omega (arith, length-drop n (contents k la.ring), whole_count, a.whole) in
    let some_asked : (max_samples == 0) ≡ false = ground arith in
    rw (asked, some_asked)
      (
        omega (arith, count, whole_count),
        given,
        left,
        record { wide = a.wide; valid = valid; whole = rw left still_held },
      )
