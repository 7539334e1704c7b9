-- ===== src/VideoPipeline/Sink/Windows.antt =====
-- The rates that the sink logs over a run.
use plat.Base.{
  ℕ, ◌+◌, ◌^◌, ◌<◌, ◌≡◌, Bool, Option, none, some, List, [], ◌∷◌, leb, length, if_both, arith,
}
use plat.Base.Text.{Text}
use plat.VideoPipeline.Sink.{
  Pipeline, Frame, elapsed, count_frame, close_window, default_frame_sink,
}

abbrev pub rate : Option ℕ → ℕ
rate none = 0
rate (some fps) = fps

-- The calls of a run, each with its time, its frame and whether the file can be opened: the pipeline at the end,
-- and the sum of the rates that are logged.
abbrev pub sink_all : List (Bool × ℕ × Frame) → Pipeline → Pipeline × ℕ
sink_all [] pl = (pl, 0)
sink_all ((opened, now, frame) ∷ calls) pl =
    let (pl', logged, text) = default_frame_sink opened now frame pl in
    let (end, total) = sink_all calls pl' in (end, rate logged + total)

-- What a result leaves to report, and what it has reported.
abbrev CountsUp : ℕ → Pipeline × Option ℕ × Option Text → Type 0
CountsUp n (pl, logged, text) = pl.stat_rendered_frames + rate logged ≡ n

one_call :
    (opened : Bool) (now : ℕ) (frame : Frame) (pl : Pipeline)
    → pl.stat_rendered_frames + 1 < 2 ^ 64
    → CountsUp (pl.stat_rendered_frames + 1) (default_frame_sink opened now frame pl)
unfolding default_frame_sink count_frame close_window
one_call opened now frame pl h =
    if_both (CountsUp (pl.stat_rendered_frames + 1))
      (leb 1000 (elapsed now (count_frame now pl).stat_window_start_ms))
      (close_window opened now frame (count_frame now pl)) (count_frame now pl, none, none)
      (λ e. omega arith) (λ e. omega arith)

-- Over any run of calls, at any times and whether or not the file of the counts can be opened, if the count of
-- the first window and the number of the calls are below 2 ^ 64 together: the rates that are logged, with the count of the window that is still open, add up to the number of frames that the
-- sink was given and the count of the first window. No frame is missed and none is reported twice.
pub sink_all-frames :
    (calls : List (Bool × ℕ × Frame)) (pl : Pipeline)
    → pl.stat_rendered_frames + length calls < 2 ^ 64
    → (sink_all calls pl).0.stat_rendered_frames + (sink_all calls pl).1
      ≡ pl.stat_rendered_frames + length calls
sink_all-frames [] pl h = omega arith
sink_all-frames ((opened, now, frame) ∷ calls) pl h =
    let one = one_call opened now frame pl (omega arith) in
    omega (
      arith,
      one,
      sink_all-frames calls (default_frame_sink opened now frame pl).0 (omega (arith, one)),
    )
