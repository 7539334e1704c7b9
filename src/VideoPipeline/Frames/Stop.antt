-- ===== src/VideoPipeline/Frames/Stop.antt =====
-- `hub_video_pipeline_stop` gives every block back.
use mathlib.Core.Option.{some-injective}
use plat.Base.{
  ℕ, zero, suc, ◌+◌, ◌%◌, ◌≤◌, ◌<◌, ◌≡◌, ◌≢◌, refl, sym, ap, ◌∙◌, false, Option, none, some, ◌==◌,
  if◌then◌else◌, arith, tabulate, dec_lt, ℕ_discrete, Bool, get_or-set_off,
}
use plat.MemoryPool.{Pool, block_list, released, release}
use plat.MemoryPool.Laws.{refs}
use plat.VideoPipeline.FrameQueue.{queue_depth, slot}
use plat.VideoPipeline.FrameQueue.Refine.{queued, unwrap}
use plat.VideoPipeline.Sink.{Pipeline}
use plat.VideoPipeline.Frames.{release_slot, release_slots, stop}
use plat.VideoPipeline.Frames.Threads.{idle, occurrences}
use plat.VideoPipeline.Frames.Counts.{refs_in-change}
use plat.VideoPipeline.Frames.Accounted.{Accounted}

-- Whatever the index, a release leaves no more holds than before, and none where there was one.
refs-release_small :
    (p : Pool) (i j : ℕ)
    → p.blocks ≡ some (block_list p)
    → refs p i ≤ 1
    → refs (release p i) j ≡ (if j == i then 0 else refs p j)
unfolding release released
refs-release_small p i j live small =
    ground (arith, refs_in-change released refl (block_list p) i j)

release-blocks :
    (p : Pool) (i : ℕ)
    → p.blocks ≡ some (block_list p)
    → (release p i).blocks ≡ some (block_list (release p i))
unfolding release
release-blocks p i live = ground arith

occurs_at : (j n : ℕ) (f : ℕ → ℕ) → 0 < occurrences j (tabulate n f) → (i : ℕ) × (i < n) × (f i ≡ j)
occurs_at j zero f h = absurd (omega arith)
occurs_at j (suc n) f h = elim (ℕ_discrete j (f 0)) [
  | yes e ↦ (0, omega arith, sym e)
  | no ne ↦ let (i, p, e) = occurs_at j n (λ i. f (suc i)) (ground arith) in (suc i, omega arith, e)
]

-- Every held block still stands in one of the slots that the loop has before it.
record Pending (n i : ℕ) (pl : Pipeline) : Type 0 where
  live : pl.pool.blocks ≡ some (block_list pl.pool)
  single : (j : ℕ) → refs pl.pool j ≤ 1
  ahead :
      (j : ℕ) → 0 < refs pl.pool j → (m : ℕ) × (i ≤ m) × (m < i + n) × (slot pl.queue m ≡ some j)

-- A slot with another content is another slot, further on.
further :
    (pl : Pipeline) (i n m k : ℕ) (o : Option ℕ)
    → slot pl.queue i ≡ o
    → o ≢ some k
    → slot pl.queue m ≡ some k
    → i ≤ m
    → m < i + suc n
    → (i ≢ m) × (i + 1 ≤ m) × (m < i + 1 + n)
further pl i n m k o e ne at low high = elim (ℕ_discrete i m) [
  | yes same ↦ absurd (ne (sym e ∙ ap (slot pl.queue) same ∙ at))
  | no apart ↦ (apart, omega arith, omega arith)
]

release_slot-Pending :
    (n i : ℕ) (pl : Pipeline) (o : Option ℕ)
    → slot pl.queue i ≡ o
    → Pending (suc n) i pl
    → Pending n (i + 1) (release_slot pl i o)
unfolding release_slot
release_slot-Pending n i pl none e w = record {
  live = w.live;
  single = w.single;
  ahead = λ k p.
      let (m, low, high, at) = w.ahead k p in
      let (apart, low', high') = further pl i n m k none e (λ q. cc) at low high in
      (m, low', high', at);
}
release_slot-Pending n i pl (some b) e w =
    let freed : (k : ℕ) → refs (release pl.pool b) k ≡ (if k == b then 0 else refs pl.pool k) =
      λ k. refs-release_small pl.pool b k w.live (w.single b) in
    record {
      live = release-blocks pl.pool b w.live;
      single = λ k. ground (arith, freed k, w.single k);
      ahead = λ k p.
          let other : k ≢ b = ground (arith, freed k) in
          let (m, low, high, at) = w.ahead k (ground (arith, freed k)) in
          let (apart, low', high') =
            further pl i n m k (some b) e (λ q. other (sym (some-injective b k q))) at low high in
          (m, low', high', get_or-set_off pl.queue.slots i m none none apart ∙ at);
    }

release_slots-frees :
    (n i : ℕ) (pl : Pipeline) → Pending n i pl → (j : ℕ) → refs (release_slots n i pl).pool j ≡ 0
unfolding release_slots
release_slots-frees zero i pl w j = elim (dec_lt 0 (refs pl.pool j)) [
  | yes p ↦ let (m, low, high, e) = w.ahead j p in absurd (omega arith)
  | no p ↦ omega arith
]
release_slots-frees (suc n) i pl w j =
    release_slots-frees n (i + 1) _ (release_slot-Pending n i pl (slot pl.queue i) refl w) j

-- After `hub_video_pipeline_stop`, whose threads have been joined, every block of the pool is free: the stale
-- slots that it releases once more do no harm.
pub stop_frees_all :
    (pl : Pipeline) (settling : Bool)
    → Accounted pl.pool pl.queue idle settling none
    → (j : ℕ) → refs (stop pl).pool j ≡ 0
unfolding stop
stop_frees_all pl settling a j =
    release_slots-frees queue_depth 0 (record pl { running = false })
      (record {
        live = a.live;
        single = a.single;
        ahead = λ k p.
            let (i, low, e) =
              occurs_at k pl.queue.q_count (λ i. unwrap (queued pl.queue i))
                (omega (arith, a.counted k)) in
            (
              (pl.queue.q_head + i) % queue_depth,
              omega arith,
              omega arith,
              a.queue_valid.filled i low ∙ ap some e,
            );
      })
      j
