-- ===== src/VideoPipeline/Frames/NoLeak.antt =====
-- No step of the pipeline's threads in video_pipeline.c loses a block or gives one to two holders.
use mathlib.Core.Path.{subst}
use plat.Base.{
  ℕ, ◌+◌, ◌<◌, ◌≡◌, refl, ◌⊎◌, inl, inr, Bool, true, false, Option, none, some, arith, length,
}
use plat.MemoryPool.Laws.{refs}
use plat.MemoryPool.Acquire.{attempt-Took}
use plat.VideoPipeline.Frames.{fill_frame, capture_missed, camera_missed, frame_of, stop}
use plat.VideoPipeline.Frames.Threads.{
  CaptureAt, idle, filling, pushing, dropping, settling_drop, System, capture_hand,
  capture_settling, acquired, frame_filled, frame_pushed, drop_subtracted, drop_stored, render_took,
  render_subtracted, render_stored, Step, acquires, misses, misses_camera, fills, fills_camera,
  pushes, subtracts_drop, stores_drop, takes, shows, subtracts_shown, stores_shown, Reach, here,
  next,
}
use plat.VideoPipeline.Frames.Accounted.{
  Accounted, IsAccounted, fill_synthetic-Keeps, fill_camera-Keeps,
}
use plat.VideoPipeline.Frames.Stop.{stop_frees_all}
use plat.VideoPipeline.Frames.Moves.{
  acquired-Accounted, filled-Accounted, pushed-Accounted, subtracted_drop-Accounted,
  stored_drop-Accounted, took-Accounted, subtracted_shown-Accounted, stored_shown-Accounted,
  shown-Accounted,
}

missed-IsAccounted :
    (s : System) → IsAccounted s → IsAccounted (record s { pipeline = capture_missed s.pipeline })
unfolding capture_missed
missed-IsAccounted s a = a

camera_missed-IsAccounted :
    (s : System) → IsAccounted s → IsAccounted (record s { pipeline = camera_missed s.pipeline })
unfolding camera_missed
camera_missed-IsAccounted s a = a

module _ (s : System) (a : IsAccounted s) where
  -- The accounts, with what is known of the threads put in.
  at_capture :
      (c : CaptureAt)
      → s.capturing ≡ c
      → Accounted s.pipeline.pool s.pipeline.queue c s.settling s.pipeline.rendering
  at_capture c e =
      subst (λ x. Accounted s.pipeline.pool s.pipeline.queue x s.settling s.pipeline.rendering) e a

  at_rendering :
      (r : Option ℕ)
      → s.pipeline.rendering ≡ r
      → Accounted s.pipeline.pool s.pipeline.queue s.capturing s.settling r
  at_rendering r e =
      subst (λ x. Accounted s.pipeline.pool s.pipeline.queue s.capturing s.settling x) e a

  at_settling :
      (b : Bool) (r : Option ℕ)
      → s.pipeline.rendering ≡ r
      → s.settling ≡ b
      → Accounted s.pipeline.pool s.pipeline.queue s.capturing b r
  at_settling b r e f =
      subst (λ x. Accounted s.pipeline.pool s.pipeline.queue s.capturing x r) f (at_rendering r e)

Step-IsAccounted : {s u : System} → Step s u → IsAccounted s → IsAccounted u
unfolding acquired frame_filled fill_frame frame_pushed drop_subtracted drop_stored render_took
    render_subtracted render_stored
Step-IsAccounted {s} (acquires i p e t apart) a =
    acquired-Accounted s.pipeline.pool s.pipeline.queue s.settling s.pipeline.rendering i p
      (at_capture s a idle e) (attempt-Took s.pipeline.pool i p t) apart
Step-IsAccounted {s} (misses e) a = missed-IsAccounted s a
Step-IsAccounted {s} (misses_camera e) a = camera_missed-IsAccounted s a
Step-IsAccounted {s} (fills i now e) a =
    filled-Accounted s.pipeline.pool s.pipeline.queue s.settling s.pipeline.rendering i _
      (fill_synthetic-Keeps s.pipeline.width s.pipeline.height (s.pipeline.seq + 1) now)
      (at_capture s a (filling i) e)
Step-IsAccounted {s} (fills_camera input i now e) a =
    filled-Accounted s.pipeline.pool s.pipeline.queue s.settling s.pipeline.rendering i _
      (fill_camera-Keeps input s.pipeline.width s.pipeline.height (s.pipeline.seq + 1) now)
      (at_capture s a (filling i) e)
Step-IsAccounted {s} (pushes i e) a =
    pushed-Accounted s.pipeline.pool s.pipeline.queue s.settling s.pipeline.rendering i
      (at_capture s a (pushing i) e)
Step-IsAccounted {s} (subtracts_drop d e) a =
    subtracted_drop-Accounted s.pipeline.pool s.pipeline.queue s.settling s.pipeline.rendering d
      (at_capture s a (dropping d) e)
Step-IsAccounted {s} (stores_drop d e) a =
    stored_drop-Accounted s.pipeline.pool s.pipeline.queue s.settling s.pipeline.rendering d
      (at_capture s a (settling_drop d) e)
Step-IsAccounted {s} (takes i q e found) a =
    took-Accounted s.pipeline.pool s.pipeline.queue s.capturing s.settling i q found
      (at_rendering s a none e)
Step-IsAccounted {s} (shows i b opened now e f found) a =
    shown-Accounted s.capturing s.settling opened now (frame_of b) s.pipeline a
Step-IsAccounted {s} (subtracts_shown i e f) a =
    subtracted_shown-Accounted s.pipeline.pool s.pipeline.queue s.capturing i
      (at_settling s a false (some i) e f)
Step-IsAccounted {s} (stores_shown i e f) a =
    stored_shown-Accounted s.pipeline.pool s.pipeline.queue s.capturing i
      (at_settling s a true (some i) e f)

Reach-IsAccounted : {s u : System} → Reach s u → IsAccounted s → IsAccounted u
Reach-IsAccounted here a = a
Reach-IsAccounted (next path step) a = Step-IsAccounted step (Reach-IsAccounted path a)

-- A thread has a block in its hands, or is within a release.
abbrev pub IsBusy : CaptureAt → Option ℕ → Type 0
IsBusy c r = (0 < length (capture_hand c) + length (capture_settling c)) ⊎ ((i : ℕ) × (r ≡ some i))

abbrev pub StopFrees : System → Type 0
StopFrees s = (j : ℕ) → refs (stop s.pipeline).pool j ≡ 0

IsBusy-or_freed :
    (s : System) (c : CaptureAt) (r : Option ℕ)
    → s.capturing ≡ c
    → s.pipeline.rendering ≡ r
    → IsAccounted s
    → IsBusy c r ⊎ StopFrees s
IsBusy-or_freed s idle none e f a = inr (
    stop_frees_all s.pipeline s.settling (
      subst (λ x. Accounted s.pipeline.pool s.pipeline.queue x s.settling none) e
        (at_rendering s a none f)))
IsBusy-or_freed s idle (some i) e f a = inl (inr (i, refl))
IsBusy-or_freed s (filling i) r e f a = inl (inl (omega arith))
IsBusy-or_freed s (pushing i) r e f a = inl (inl (omega arith))
IsBusy-or_freed s (dropping i) r e f a = inl (inl (omega arith))
IsBusy-or_freed s (settling_drop i) r e f a = inl (inl (omega arith))

-- Whatever the capture and render threads do, in any order, an acquire of a block between the two accesses of
-- its release being left out: from a pipeline whose blocks are accounted for on, the count of every block
-- of the pool is the number of times that it stands in the queue or in the hands of a thread, and this is at
-- most one; and unless a thread has a block in its hands or is within a release, a stop gives every block
-- of the pool back. So no block is lost, and none is written while it waits or is shown.
pub frames_never_leak :
    {s u : System}
    → Reach s u
    → IsAccounted s
    → IsAccounted u × (IsBusy u.capturing u.pipeline.rendering ⊎ StopFrees u)
frames_never_leak {s} {u} path a =
    let after = Reach-IsAccounted path a in
    (after, IsBusy-or_freed u u.capturing u.pipeline.rendering refl refl after)
