-- ===== src/VideoPipeline/Start.antt =====
-- `hub_video_pipeline_start` and `hub_video_pipeline_stop` of video_pipeline.c.

pub mod Release
use plat.Base.{ℕ, Bool, true, false, not, ◌||◌, none, [], if◌then◌else◌}
use plat.MemoryPool.{Pool}
use plat.VideoPipeline.FrameQueue.{empty_queue}
use plat.VideoPipeline.Sink.{Pipeline}
use plat.VideoPipeline.Frames.{stop}
use plat.VideoPipeline.Camera.{Camera, CameraCalls, open_v4l2, close_v4l2}

-- A thread's handle: 0, that of a thread, or a value that is not 0 and that pthread_create has left as it failed.
pub data Thread : Type 0 where
  unset : Thread
  begun : Thread
  junk : Thread

-- What the two calls of pthread_create do: whether a thread is made, and whether a call that fails leaves a
-- value that is not 0.
pub record ThreadCalls : Type 0 where
  pub capture_made : Bool
  pub capture_left : Bool
  pub render_made : Bool
  pub render_left : Bool

unfoldable pub handle_of : Bool → Bool → Thread
handle_of made left = if made then begun else if left then junk else unset

-- Whether pthread_join of a handle that is not 0 waits for no thread; what it does then is not defined.
unfoldable pub is_junk : Thread → Bool
is_junk unset = false
is_junk begun = false
is_junk junk = true

-- `hub_video_pipeline_t`: `allocated` is whether its private part is there, and `misjoined` whether a handle
-- that is no thread's has been joined.
pub record Video : Type 0 where
  pub pipeline : Pipeline
  pub camera : Camera
  pub allocated : Bool
  pub capture_thread : Thread
  pub render_thread : Thread
  pub misjoined : Bool

-- The camera's part of a private part that calloc has cleared.
unfoldable pub fresh_camera : ℕ → ℕ → Camera
fresh_camera width height = record {
  fd = none;
  width = width;
  height = height;
  bufs = [];
  open_fds = [];
  mappings = [];
}

unfoldable pub fresh_pipeline : Pool → ℕ → ℕ → Bool → Pipeline
fresh_pipeline pool width height running = record {
  pool = pool;
  queue = empty_queue;
  rendering = none;
  running = running;
  seq = 0;
  width = width;
  height = height;
  stat_window_start_ms = 0;
  stat_rendered_frames = 0;
  stat_captured_frames = 0;
  stat_drop_pool = 0;
  stat_drop_queue = 0;
}

-- `hub_video_pipeline_stop`, whose threads are joined in it: `pipeline` is what they have left.
unfoldable pub video_stop : Video → Video
video_stop v =
    if v.allocated
    then record {
      pipeline = stop v.pipeline;
      camera = close_v4l2 v.camera;
      allocated = false;
      capture_thread = unset;
      render_thread = unset;
      misjoined = v.misjoined || (is_junk v.capture_thread || is_junk v.render_thread);
    }
    else v

-- The threads of a pipeline with its camera. `joined` is what the capture thread does until it is joined if
-- the other cannot be made.
unfoldable pub start_threads : ThreadCalls → (Pipeline → Pipeline) → Pool → Camera → Bool × Video
start_threads threads joined pool camera =
    let pl = fresh_pipeline pool camera.width camera.height true in
    let v : Video = record {
      pipeline = pl;
      camera = camera;
      allocated = true;
      capture_thread = handle_of threads.capture_made threads.capture_left;
      render_thread = unset;
      misjoined = false;
    } in
    let w = record v { render_thread = handle_of threads.render_made threads.render_left } in
    if not threads.capture_made
    then (false, video_stop (record v { pipeline = record pl { running = false } }))
    else if not threads.render_made
    then (false, video_stop (record w { pipeline = record (joined pl) { running = false } }))
    else (true, w)

-- `hub_video_pipeline_start`: whether it returns 0; `allocated` is whether calloc succeeds.
unfoldable pub video_start :
    Bool → CameraCalls → ThreadCalls → (Pipeline → Pipeline) → Pool → ℕ → ℕ → Bool × Video
video_start allocated calls threads joined pool width height =
    let camera = (open_v4l2 calls (fresh_camera width height)).1 in
    let started = start_threads threads joined pool camera in
    if allocated then started else (
      false,
      record {
        pipeline = fresh_pipeline pool width height false;
        camera = fresh_camera width height;
        allocated = false;
        capture_thread = unset;
        render_thread = unset;
        misjoined = false;
      },
    )
