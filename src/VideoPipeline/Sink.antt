-- ===== src/VideoPipeline/Sink.antt =====
-- `default_frame_sink` of video_pipeline.c: the rate of the frames, and the file with the pipeline's counts.
pub mod Windows
use plat.Base.{
  ℕ, ◌+◌, ◌-◌, ◌%◌, ◌^◌, Bool, Option, none, some, List, ◌++◌, leb, ◌==◌, if◌then◌else◌,
}
use plat.Base.Text.{Text, codes, print_nat}
use plat.MemoryPool.{Pool}
use plat.VideoPipeline.FrameQueue.{FrameQueue}

-- `hub_video_pipeline_t` and its private part, as far as frames go. `rendering` is the block that the
-- render thread has taken off the queue and not yet released.
pub record Pipeline : Type 0 where
  pub pool : Pool
  pub queue : FrameQueue
  pub rendering : Option ℕ
  pub running : Bool
  pub seq : ℕ
  pub width : ℕ
  pub height : ℕ
  pub stat_window_start_ms : ℕ
  pub stat_rendered_frames : ℕ
  pub stat_captured_frames : ℕ
  pub stat_drop_pool : ℕ
  pub stat_drop_queue : ℕ

-- `hub_video_frame_t`; `bytes` is its data.
pub record Frame : Type 0 where
  pub bytes : Option (List ℕ)
  pub size : ℕ
  pub width : ℕ
  pub height : ℕ
  pub format : ℕ
  pub seq : ℕ
  pub timestamp_ms : ℕ

-- What is written to HUB_VIDEO_STATS_FILE.
unfoldable pub stats_text : ℕ → Frame → Pipeline → Text
stats_text fps frame pl =
    codes "{\"fps\":"
    ++ (print_nat fps
        ++ (codes ",\"width\":"
            ++ (print_nat frame.width
                ++ (codes ",\"height\":"
                    ++ (print_nat frame.height
                        ++ (codes ",\"seq\":"
                            ++ (print_nat frame.seq
                                ++ (codes ",\"timestamp_ms\":"
                                    ++ (print_nat frame.timestamp_ms
                                        ++ (codes ",\"captured\":"
                                            ++ (print_nat pl.stat_captured_frames
                                                ++ (codes ",\"drop_pool\":"
                                                    ++ (print_nat pl.stat_drop_pool
                                                        ++ (codes ",\"drop_queue\":"
                                                            ++ (print_nat pl.stat_drop_queue
                                                            ++ codes "}\n")))))))))))))))

-- A subtraction of two uint64_t.
abbrev pub elapsed : ℕ → ℕ → ℕ
elapsed now start = (now + 2 ^ 64 - start) % 2 ^ 64

unfoldable pub count_frame : ℕ → Pipeline → Pipeline
count_frame now pl = record pl {
  stat_window_start_ms = if pl.stat_window_start_ms == 0 then now else pl.stat_window_start_ms;
  stat_rendered_frames = (pl.stat_rendered_frames + 1) % 2 ^ 64;
}

-- The report at the end of a window.
unfoldable pub close_window : Bool → ℕ → Frame → Pipeline → Pipeline × Option ℕ × Option Text
close_window opened now frame pl = (
  record pl { stat_window_start_ms = now; stat_rendered_frames = 0 },
  some pl.stat_rendered_frames,
  if opened then some (stats_text pl.stat_rendered_frames frame pl) else none,
)

-- `default_frame_sink` at the time `now`: the pipeline, the rate that is logged, and the text that the file
-- holds, if it can be opened.
unfoldable pub default_frame_sink : Bool → ℕ → Frame → Pipeline → Pipeline × Option ℕ × Option Text
default_frame_sink opened now frame pl =
    let counted = count_frame now pl in
    if leb 1000 (elapsed now counted.stat_window_start_ms)
    then close_window opened now frame counted
    else (counted, none, none)
