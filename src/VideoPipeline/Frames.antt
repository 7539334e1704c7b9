-- ===== src/VideoPipeline/Frames.antt =====
-- The frames of video_pipeline.c on their way: the capture thread fills a block of the pool and queues
-- it, the render thread takes it off and releases it, and `hub_video_pipeline_stop` empties the queue.
pub mod Threads
pub mod Counts
pub mod Accounted
pub mod Moves
pub mod NoLeak
pub mod Stop
pub mod Overrun
use plat.Base.{
  ℕ, zero, suc, ◌+◌, ◌*◌, ◌≡◌, Bool, false, Option, none, some, List, [], ◌∷◌, replicate, set,
  get_elem?,
}
use plat.MemoryPool.{Block, Pool, taken, attempt, release, block_list}
use plat.VideoPipeline.Sink.{Pipeline, Frame, default_frame_sink}
use plat.VideoPipeline.Yuv.{init_yuv_lut, yuyv_to_rgb565}
use plat.VideoPipeline.FrameQueue.{FrameQueue, queue_push, take_head, popped, queue_depth, slot}

-- Block `i` with its fields changed.
unfoldable pub change_block : (Block → Block) → ℕ → List Block → List Block
change_block f i [] = []
change_block f zero (b ∷ bs) = f b ∷ bs
change_block f (suc i) (b ∷ bs) = b ∷ change_block f i bs

-- The synthetic frame: `memset` of the data, and the frame's fields. HUB_PIXEL_FMT_RGB565 is 1.
unfoldable pub fill_synthetic : ℕ → ℕ → ℕ → ℕ → Block → Block
fill_synthetic width height seq now b = record b {
  bytes = some (replicate b.capacity 0);
  used = b.capacity;
  width = width;
  height = height;
  format = 1;
  seq = seq;
  timestamp_ms = now;
}

unfoldable pub camera_bytes : List ℕ → ℕ → ℕ → Option (List ℕ) → Option (List ℕ)
camera_bytes input width height none = none
camera_bytes input width height (some out) =
    some (yuyv_to_rgb565 init_yuv_lut input out width height)

-- The frame of a camera.
unfoldable pub fill_camera : List ℕ → ℕ → ℕ → ℕ → ℕ → Block → Block
fill_camera input width height seq now b = record b {
  bytes = camera_bytes input width height b.bytes;
  used = width * height * 2;
  width = width;
  height = height;
  format = 1;
  seq = seq;
  timestamp_ms = now;
}

unfoldable pub fill_block : (Block → Block) → ℕ → Pool → Pool
fill_block f i p = record p { blocks = some (change_block f i (block_list p)) }

-- Block `i` is filled, and its frame is counted: `fill` is given the frame's number.
unfoldable pub fill_frame : Pipeline → (ℕ → Block → Block) → ℕ → Pool → Pipeline
fill_frame pl fill i p =
    let seq : ℕ = pl.seq + 1 in
    record pl {
      pool = fill_block (fill seq) i p;
      stat_captured_frames = pl.stat_captured_frames + 1;
      seq = seq;
    }

-- A round in which the pool has no block. With a camera the frame has been counted before.
unfoldable pub capture_missed : Pipeline → Pipeline
capture_missed pl = record pl { stat_drop_pool = pl.stat_drop_pool + 1 }

unfoldable pub camera_missed : Pipeline → Pipeline
camera_missed pl = record pl {
  stat_captured_frames = pl.stat_captured_frames + 1;
  stat_drop_pool = pl.stat_drop_pool + 1;
}

-- The frame that the render thread gives to the callback.
unfoldable pub frame_of : Block → Frame
frame_of b = record {
  bytes = b.bytes;
  size = b.used;
  width = b.width;
  height = b.height;
  format = b.format;
  seq = b.seq;
  timestamp_ms = b.timestamp_ms;
}

-- One round of the loop of `hub_video_pipeline_stop` over the queue's slots. A slot that is not null is
-- released, also if its frame was taken off the queue long ago.
unfoldable pub release_slot : Pipeline → ℕ → Option ℕ → Pipeline
release_slot pl i none = pl
release_slot pl i (some b) = record pl {
  pool = release pl.pool b;
  queue = record pl.queue { slots = set pl.queue.slots i none };
}

-- The loop with `n` rounds left, from slot `i` on.
unfoldable pub release_slots : ℕ → ℕ → Pipeline → Pipeline
release_slots zero i pl = pl
release_slots (suc n) i pl = release_slots n (i + 1) (release_slot pl i (slot pl.queue i))

-- `hub_video_pipeline_stop` once both threads have been joined.
unfoldable pub stop : Pipeline → Pipeline
stop pl = release_slots queue_depth 0 (record pl { running = false })
