-- ===== src/VideoPipeline/Frames/Threads.antt =====
-- The steps of the capture and the render thread of video_pipeline.c, in any order. A call under the lock of
-- the pool or of the queue is one step, each of the two atomic accesses of `hub_mem_pool_release` is one,
-- and so is the filling of a block.
use plat.Base.{
  ℕ, ◌+◌, ◌≡◌, Bool, true, false, Option, none, some, List, [], ◌∷◌, leb, ◌==◌, if◌then◌else◌,
  get_elem?,
}
use plat.MemoryPool.{Block, Pool, taken, attempt, block_list}
use plat.MemoryPool.Laws.{refs}
use plat.MemoryPool.Race.{sub_ref, store_zero}
use plat.VideoPipeline.Sink.{Pipeline, default_frame_sink}
use plat.VideoPipeline.FrameQueue.{FrameQueue, queue_push, take_head, popped}
use plat.VideoPipeline.Frames.{
  fill_synthetic, fill_camera, fill_frame, capture_missed, camera_missed, frame_of,
}

-- Where the capture thread is: between two rounds, with a block that it fills or pushes, or in the release of a
-- block that the queue has dropped, before its subtraction or before its store of 0.
pub data CaptureAt : Type 0 where
  idle : CaptureAt
  filling : ℕ → CaptureAt
  pushing : ℕ → CaptureAt
  dropping : ℕ → CaptureAt
  settling_drop : ℕ → CaptureAt

-- `pipeline.rendering` is the render thread's block, and `settling` whether its release has subtracted and
-- is still to store 0.
pub record System : Type 0 where
  pub pipeline : Pipeline
  pub capturing : CaptureAt
  pub settling : Bool

-- The blocks that the capture thread holds, and those that it is still to store 0 for.
abbrev pub capture_hand : CaptureAt → List ℕ
capture_hand idle = []
capture_hand (filling i) = i ∷ []
capture_hand (pushing i) = i ∷ []
capture_hand (dropping i) = i ∷ []
capture_hand (settling_drop i) = []

abbrev pub capture_settling : CaptureAt → List ℕ
capture_settling idle = []
capture_settling (filling i) = []
capture_settling (pushing i) = []
capture_settling (dropping i) = []
capture_settling (settling_drop i) = i ∷ []

-- The same of the render thread.
abbrev pub render_hand : Bool → Option ℕ → List ℕ
render_hand settling none = []
render_hand false (some i) = i ∷ []
render_hand true (some i) = []

abbrev pub render_settling : Bool → Option ℕ → List ℕ
render_settling settling none = []
render_settling false (some i) = []
render_settling true (some i) = i ∷ []

abbrev pub occurrences : ℕ → List ℕ → ℕ
occurrences j [] = 0
occurrences j (x ∷ xs) = (if j == x then 1 else 0) + occurrences j xs

-- `hub_mem_pool_acquire` has returned block `i`.
unfoldable pub acquired : System → ℕ → Pool → System
acquired s i p = record s { pipeline = record s.pipeline { pool = p }; capturing = filling i }

unfoldable pub frame_filled : System → ℕ → (ℕ → Block → Block) → System
frame_filled s i fill = record s {
  pipeline = fill_frame s.pipeline fill i s.pipeline.pool;
  capturing = pushing i;
}

-- What `queue_push` is still to do once it has left its lock.
unfoldable pub after_push : Option ℕ → CaptureAt
after_push none = idle
after_push (some d) = dropping d

unfoldable pub count_drop : ℕ → Option ℕ → ℕ
count_drop n none = n
count_drop n (some d) = n + 1

unfoldable pub frame_pushed : System → ℕ → System
frame_pushed s i =
    let (q, dropped) = queue_push s.pipeline.queue i in
    record s {
      pipeline = record s.pipeline {
        queue = q;
        stat_drop_queue = count_drop s.pipeline.stat_drop_queue dropped;
      };
      capturing = after_push dropped;
    }

-- `atomic_fetch_sub` in the release of a dropped block: the store follows if the count was at most 1.
unfoldable pub drop_subtracted : System → ℕ → System
drop_subtracted s d = record s {
  pipeline = record s.pipeline { pool = sub_ref s.pipeline.pool d };
  capturing = if leb (refs s.pipeline.pool d) 1 then settling_drop d else idle;
}

unfoldable pub drop_stored : System → ℕ → System
drop_stored s d = record s {
  pipeline = record s.pipeline { pool = store_zero s.pipeline.pool d };
  capturing = idle;
}

-- The render thread: after `queue_pop`, and the two accesses of its release.
unfoldable pub render_took : System → ℕ → FrameQueue → System
render_took s i q = record s {
  pipeline = record s.pipeline { queue = q; rendering = some i };
  settling = false;
}

unfoldable pub render_subtracted : System → ℕ → System
render_subtracted s i =
    let last = leb (refs s.pipeline.pool i) 1 in
    record s {
      pipeline = record s.pipeline {
        pool = sub_ref s.pipeline.pool i;
        rendering = if last then some i else none;
      };
      settling = last;
    }

unfoldable pub render_stored : System → ℕ → System
render_stored s i = record s {
  pipeline = record s.pipeline { pool = store_zero s.pipeline.pool i; rendering = none };
  settling = false;
}

-- The threads' steps. An acquire that takes a block between the two accesses of its release is left out: it is
-- the race of MemoryPool/Race, after which the block can have two holders.
pub data Step (s : System) : System → Type 0 where
  acquires :
      (i : ℕ) (p : Pool)
      → s.capturing ≡ idle
      → attempt s.pipeline.pool ≡ taken i p
      → occurrences i (render_settling s.settling s.pipeline.rendering) ≡ 0
      → Step s (acquired s i p)
  misses : s.capturing ≡ idle → Step s (record s { pipeline = capture_missed s.pipeline })
  misses_camera : s.capturing ≡ idle → Step s (record s { pipeline = camera_missed s.pipeline })
  fills :
      (i now : ℕ)
      → s.capturing ≡ filling i
      → Step s (frame_filled s i (λ seq. fill_synthetic s.pipeline.width s.pipeline.height seq now))
  fills_camera :
      (input : List ℕ) (i now : ℕ)
      → s.capturing ≡ filling i
      → Step s
          (frame_filled s i (λ seq. fill_camera input s.pipeline.width s.pipeline.height seq now))
  pushes : (i : ℕ) → s.capturing ≡ pushing i → Step s (frame_pushed s i)
  subtracts_drop : (d : ℕ) → s.capturing ≡ dropping d → Step s (drop_subtracted s d)
  stores_drop : (d : ℕ) → s.capturing ≡ settling_drop d → Step s (drop_stored s d)
  takes :
      (i : ℕ) (q : FrameQueue)
      → s.pipeline.rendering ≡ none
      → take_head s.pipeline.queue ≡ popped (some i) q
      → Step s (render_took s i q)
  shows :
      (i : ℕ) (b : Block) (opened : Bool) (now : ℕ)
      → s.pipeline.rendering ≡ some i
      → s.settling ≡ false
      → get_elem? (block_list s.pipeline.pool) i ≡ some b
      → Step s (record s { pipeline = (default_frame_sink opened now (frame_of b) s.pipeline).0 })
  subtracts_shown :
      (i : ℕ) → s.pipeline.rendering ≡ some i → s.settling ≡ false → Step s (render_subtracted s i)
  stores_shown :
      (i : ℕ) → s.pipeline.rendering ≡ some i → s.settling ≡ true → Step s (render_stored s i)

pub data Reach (s : System) : System → Type 0 where
  here : Reach s s
  next : {t u : System} → Reach s t → Step t u → Reach s u
