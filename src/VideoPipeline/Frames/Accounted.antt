-- ===== src/VideoPipeline/Frames/Accounted.antt =====
-- What it means that every block of the pool is accounted for, and what fills and releases do to the counts.
use plat.Base.{
  ℕ, ◌+◌, ◌-◌, ◌≤◌, ◌<◌, ◌≡◌, refl, Bool, Option, some, List, ◌==◌, if◌then◌else◌, arith,
}
use plat.MemoryPool.{Block, Pool, block_list}
use plat.MemoryPool.Laws.{refs}
use plat.MemoryPool.Race.{sub_ref, store_zero}
use plat.VideoPipeline.FrameQueue.{FrameQueue}
use plat.VideoPipeline.FrameQueue.Refine.{IsValid, frames}
use plat.VideoPipeline.Frames.{fill_block, fill_synthetic, fill_camera}
use plat.VideoPipeline.Frames.Threads.{
  CaptureAt, System, capture_hand, capture_settling, render_hand, render_settling, occurrences,
}
use plat.VideoPipeline.Frames.Counts.{refs_in-change_block, refs_in-change}

-- Every block is held just by the queue and the two threads, and at most once; a block between the two accesses
-- of its release is held by nobody.
pub record Accounted (pool : Pool) (queue : FrameQueue) (c : CaptureAt) (settling : Bool)
    (rendering : Option ℕ) : Type 0 where
  pub live : pool.blocks ≡ some (block_list pool)
  pub queue_valid : IsValid queue
  pub counted :
      (j : ℕ)
      → refs pool j
        ≡ occurrences j (frames queue)
          + occurrences j (capture_hand c)
          + occurrences j (render_hand settling rendering)
  pub single : (j : ℕ) → refs pool j ≤ 1
  pub settled :
      (j : ℕ)
      → 0 < occurrences j (capture_settling c) + occurrences j (render_settling settling rendering)
      → refs pool j ≡ 0

abbrev pub IsAccounted : System → Type 0
IsAccounted s =
    Accounted s.pipeline.pool s.pipeline.queue s.capturing s.settling s.pipeline.rendering

-- A fill that leaves the count alone.
abbrev pub Keeps : (Block → Block) → Type 0
Keeps f = (b : Block) → (f b).refs ≡ b.refs

pub refs-fill :
    (f : Block → Block) (keeps : Keeps f) (i : ℕ) (p : Pool) (j : ℕ)
    → refs (fill_block f i p) j ≡ refs p j
unfolding fill_block
refs-fill f keeps i p j = refs_in-change_block f keeps (block_list p) i j

pub fill_synthetic-Keeps : (width height seq now : ℕ) → Keeps (fill_synthetic width height seq now)
unfolding fill_synthetic
fill_synthetic-Keeps width height seq now b = refl

pub fill_camera-Keeps :
    (input : List ℕ) (width height seq now : ℕ) → Keeps (fill_camera input width height seq now)
unfolding fill_camera
fill_camera-Keeps input width height seq now b = refl

module _ (p : Pool) (i : ℕ) (live : p.blocks ≡ some (block_list p)) where
  -- The two accesses of a release.
  pub refs-sub_ref : (j : ℕ) → refs (sub_ref p i) j ≡ (if j == i then refs p i - 1 else refs p j)
  unfolding sub_ref
  refs-sub_ref j = ground (arith, refs_in-change (λ r. r - 1) refl (block_list p) i j)

  pub refs-store_zero : (j : ℕ) → refs (store_zero p i) j ≡ (if j == i then 0 else refs p j)
  unfolding store_zero
  refs-store_zero j = ground (arith, refs_in-change (λ r. 0) refl (block_list p) i j)

  pub sub_ref-live : (sub_ref p i).blocks ≡ some (block_list (sub_ref p i))
  unfolding sub_ref
  sub_ref-live = ground arith

  pub store_zero-live : (store_zero p i).blocks ≡ some (block_list (store_zero p i))
  unfolding store_zero
  store_zero-live = ground arith
