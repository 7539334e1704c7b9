-- ===== src/VideoPipeline/FrameQueue.antt =====
-- `queue_push` and `queue_pop` of video_pipeline.c: the frame queue, which drops its oldest frame when
-- it is full. A call under the lock is one step.
pub mod Refine
pub mod Waiting
use plat.Base.{
  ℕ, zero, suc, ◌+◌, ◌-◌, ◌%◌, Bool, true, false, not, ◌&&◌, Option, none, some, List, [], ◌∷◌, leb,
  ltb, ◌==◌, if◌then◌else◌, get_or, set, replicate,
}
use plat.Base.Int.{ℤ, pos, negsuc}

abbrev pub queue_depth : ℕ
queue_depth = 8

-- The queue's part of `hub_video_priv_t`. A slot is a block's index, or `none` for a null pointer.
pub record FrameQueue : Type 0 where
  pub slots : List (Option ℕ)
  pub q_head : ℕ
  pub q_tail : ℕ
  pub q_count : ℕ

-- The zeroed queue that `hub_video_pipeline_start` allocates.
unfoldable pub empty_queue : FrameQueue
empty_queue = record { slots = replicate queue_depth none; q_head = 0; q_tail = 0; q_count = 0 }

abbrev pub slot : FrameQueue → ℕ → Option ℕ
slot q i = get_or q.slots i none

-- The oldest frame is taken off, as a full push and a pop do.
unfoldable pub advance : FrameQueue → FrameQueue
advance q = record q { q_head = (q.q_head + 1) % queue_depth; q_count = q.q_count - 1 }

unfoldable pub append : FrameQueue → ℕ → FrameQueue
append q block = record q {
  slots = set q.slots q.q_tail (some block);
  q_tail = (q.q_tail + 1) % queue_depth;
  q_count = q.q_count + 1;
}

-- The new queue, and the block `drop` that the caller releases.
unfoldable pub queue_push : FrameQueue → ℕ → FrameQueue × Option ℕ
queue_push q block =
    if leb queue_depth q.q_count
    then (append (advance q) block, slot q q.q_head)
    else (append q block, none)

-- What the waiting loop of `queue_pop` may meet: a signal or the time limit, each with the pipeline's
-- `running` and the queue as they are then.
pub data Wake : Type 0 where
  signalled : Bool → FrameQueue → Wake
  timed_out : Bool → FrameQueue → Wake

-- `popped` has the block, `none` for the result NULL.
pub data Popped : Type 0 where
  popped : Option ℕ → FrameQueue → Popped
  asleep : Popped

-- What follows the loop.
unfoldable pub take_head : FrameQueue → Popped
take_head q = if q.q_count == 0 then popped none q else popped (slot q q.q_head) (advance q)

unfoldable pub queue_pop : Bool → FrameQueue → ℤ → List Wake → Popped
queue_pop running q wait [] = if running && (q.q_count == 0) then asleep else take_head q
queue_pop running q wait (signalled running' q' ∷ ws) =
    let rest = queue_pop running' q' wait ws in
    if running && (q.q_count == 0) then rest else take_head q
queue_pop running q (pos n) (timed_out running' q' ∷ ws) =
    if running && (q.q_count == 0) then take_head q' else take_head q
queue_pop running q (negsuc n) (timed_out running' q' ∷ ws) =
    let rest = queue_pop running' q' (negsuc n) ws in
    if running && (q.q_count == 0) then rest else take_head q
