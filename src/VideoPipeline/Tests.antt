-- ===== src/VideoPipeline/Tests.antt =====
-- The theorems of the pipeline at concrete states.
use plat.Base.{
  ℕ, zero, suc, ◌≡◌, ◌≤◌, ◌⊎◌, refl, true, false, none, some, [], ◌∷◌, replicate, arith, ◌+◌, ◌<◌,
  Bool, List, length, ◌==◌, if◌then◌else◌,
}
use plat.Base.Int.{negsuc, scaled, difference, neg}
use plat.MemoryPool.{Block, Pool, attempt, take_first, is_block_free}
use plat.MemoryPool.Laws.{refs_in}
use plat.VideoPipeline.FrameQueue.{FrameQueue, queue_pop, asleep}
use plat.VideoPipeline.FrameQueue.Refine.{IsValid, queued, unwrap}
use plat.VideoPipeline.FrameQueue.Waiting.{Sleeps, Returns, queue_pop_refines}
use plat.VideoPipeline.Sink.{Pipeline, Frame}
use plat.VideoPipeline.Frames.{capture_missed, fill_synthetic, fill_camera, frame_of}
use plat.VideoPipeline.Frames.Threads.{
  System, idle, acquired, frame_filled, Reach, here, next, acquires, fills,
}
use plat.VideoPipeline.Frames.Accounted.{IsAccounted}
use plat.VideoPipeline.Frames.NoLeak.{IsBusy, StopFrees, frames_never_leak}
use plat.VideoPipeline.Frames.Overrun.{small_block-overruns}
use plat.VideoPipeline.Sink.Windows.{sink_all, sink_all-frames}
use plat.VideoPipeline.Yuv.{yuyv_to_rgb565, init_yuv_lut, rv_at}
use plat.VideoPipeline.Yuv.Pixels.{HoldsPixel, pixel_at, byte, yuyv_to_rgb565-pixels}
use plat.VideoPipeline.Camera.{CameraCalls}
use plat.VideoPipeline.Start.{ThreadCalls, video_start}
use plat.VideoPipeline.Start.Release.{Ends, until_stop, video_start-IsReleased}

-- Blocks 3 and 1 wait, at the end and the start of the slots.
abbrev two_frames : FrameQueue
two_frames = record {
  slots = some 1 ∷ none ∷ none ∷ none ∷ none ∷ none ∷ none ∷ some 3 ∷ [];
  q_head = 7;
  q_tail = 1;
  q_count = 2;
}

two_frames-IsValid : IsValid two_frames
two_frames-IsValid = record {
  size = refl;
  head_in = omega arith;
  tail_at = refl;
  count_fits = omega arith;
  filled = both;
}
  where
    both : (i : ℕ) → suc i ≤ 2 → queued two_frames i ≡ some (unwrap (queued two_frames i))
    both zero h = refl
    both (suc zero) h = refl
    both (suc (suc i)) h = absurd (omega arith)

queue_pop_refines_example :
    ((queue_pop true two_frames (negsuc 0) [] ≡ asleep) × Sleeps true two_frames (negsuc 0) [])
    ⊎ Returns true two_frames (negsuc 0) [] (queue_pop true two_frames (negsuc 0) [])
queue_pop_refines_example = queue_pop_refines true two_frames (negsuc 0) [] two_frames-IsValid tt

abbrev free_block : ℕ → Block
free_block i = record {
  bytes = some (7 ∷ 7 ∷ []);
  capacity = 2;
  used = 0;
  width = 0;
  height = 0;
  format = 0;
  timestamp_ms = 0;
  seq = 0;
  index = i;
  refs = 0;
}

abbrev fresh_pool : Pool
fresh_pool = record {
  blocks = some (free_block 0 ∷ []);
  block_count = 1;
  block_size = 2;
  shutdown = false;
}

abbrev taken_pool : Pool
taken_pool = record fresh_pool { blocks = some (record (free_block 0) { refs = 1 } ∷ []) }

abbrev no_frames : FrameQueue
no_frames = record { slots = replicate 8 none; q_head = 0; q_tail = 0; q_count = 0 }

abbrev started : Pipeline
started = record {
  pool = fresh_pool;
  queue = no_frames;
  rendering = none;
  running = true;
  seq = 0;
  width = 1;
  height = 1;
  stat_window_start_ms = 0;
  stat_rendered_frames = 0;
  stat_captured_frames = 0;
  stat_drop_pool = 0;
  stat_drop_queue = 0;
}

none_held : (j : ℕ) → refs_in (free_block 0 ∷ []) j ≡ 0
unfolding refs_in
none_held zero = refl
none_held (suc j) = refl

abbrev at_start : System
at_start = record { pipeline = started; capturing = idle; settling = false }

started-IsAccounted : IsAccounted at_start
started-IsAccounted = record {
  live = refl;
  queue_valid = record {
    size = refl;
    head_in = omega arith;
    tail_at = refl;
    count_fits = omega arith;
    filled = λ i h. absurd (omega arith);
  };
  counted = λ j. none_held j;
  single = λ j. omega (arith, none_held j);
  settled = λ j h. absurd (omega (arith, h));
}

-- A block is acquired and filled.
abbrev in_hand : System
in_hand = frame_filled (acquired at_start 0 taken_pool) 0 (λ seq. fill_synthetic 1 1 seq 100)

filled_one : Reach at_start in_hand
unfolding attempt take_first is_block_free acquired
filled_one = next (next here (acquires 0 taken_pool refl refl refl)) (fills 0 100 refl)

frames_never_leak_example :
    IsAccounted in_hand × (IsBusy in_hand.capturing in_hand.pipeline.rendering ⊎ StopFrees in_hand)
frames_never_leak_example = frames_never_leak filled_one started-IsAccounted

-- A camera with two buffers, of which the second cannot be mapped.
abbrev bad_camera : CameraCalls
bad_camera = record {
  opened = some 5;
  querycap = true;
  set_format = some (1, 1);
  reqbufs = some 2;
  querybuf = λ i. true;
  mmap = λ i. if i == 0 then some 4096 else none;
  qbuf = λ i. true;
  streamon = true;
}

-- The second thread cannot be made, and its handle is left as it was.
abbrev one_thread : ThreadCalls
one_thread = record {
  capture_made = true;
  capture_left = false;
  render_made = false;
  render_left = false;
}

video_start-IsReleased_example : Ends false (
    until_stop capture_missed
      (video_start true bad_camera one_thread capture_missed fresh_pool 1 1))
video_start-IsReleased_example =
    video_start-IsReleased capture_missed capture_missed true bad_camera one_thread fresh_pool 1 1

-- A pair of grey pixels.
abbrev grey_pair : List ℕ
grey_pair = 100 ∷ 128 ∷ 200 ∷ 128 ∷ []

abbrev blank : List ℕ
blank = 0 ∷ 0 ∷ 0 ∷ 0 ∷ 9 ∷ []

yuyv_to_rgb565-pixels_example :
    let result = yuyv_to_rgb565 init_yuv_lut grey_pair blank 2 1 in
    HoldsPixel result 2 (pixel_at grey_pair 0 1) × (byte result 4 ≡ 9) × (length result ≡ 5)
yuyv_to_rgb565-pixels_example =
    yuyv_to_rgb565-pixels grey_pair blank 2 1 0 1 4
      (omega arith, (omega arith, (omega arith, (omega arith, tt)))) (omega arith) (omega arith)
      (omega arith) (omega arith) (omega arith)

small_block-overruns_example :
    let frame = frame_of (fill_camera grey_pair 2 1 1 100 (free_block 0)) in
    (frame.bytes ≡ some (7 ∷ 7 ∷ [])) × (2 < frame.size)
small_block-overruns_example =
    small_block-overruns grey_pair (7 ∷ 7 ∷ []) 2 1 1 100 (free_block 0) refl refl (omega arith)

abbrev grey_frame : Frame
grey_frame = record {
  bytes = some grey_pair;
  size = 4;
  width = 2;
  height = 1;
  format = 1;
  seq = 1;
  timestamp_ms = 100;
}

-- Two frames in one window, and a third that ends it.
abbrev three_calls : List (Bool × ℕ × Frame)
three_calls = (true, 100, grey_frame) ∷ (true, 900, grey_frame) ∷ (false, 1100, grey_frame) ∷ []

sink_all-frames_example :
    (sink_all three_calls started).0.stat_rendered_frames + (sink_all three_calls started).1 ≡ 3
sink_all-frames_example = sink_all-frames three_calls started (omega arith)

-- The division of a negative number goes towards 0.
darkest_red : rv_at 0 ≡ negsuc 178
unfolding rv_at scaled difference neg
darkest_red = refl
