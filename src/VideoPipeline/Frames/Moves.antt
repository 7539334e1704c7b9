-- ===== src/VideoPipeline/Frames/Moves.antt =====
-- What each step of video_pipeline.c's threads does to the accounts of the pool's blocks.
use mathlib.Core.Path.{subst}
use plat.Base.{
  ℕ, ◌<◌, ◌≡◌, refl, ap, ◌∙◌, inl, inr, Bool, true, false, Option, none, some, [], ◌∷◌, ◌++◌, leb,
  ◌==◌, if◌then◌else◌, if_both, arith, length, drop, get_or, Bool-cases,
}
use plat.Base.Text.{Text}
use plat.MemoryPool.{Block, Pool}
use plat.MemoryPool.Laws.{refs}
use plat.MemoryPool.Race.{sub_ref, store_zero}
use plat.MemoryPool.Acquire.{Took}
use plat.VideoPipeline.FrameQueue.{FrameQueue, queue_push, queue_depth, take_head, popped}
use plat.VideoPipeline.FrameQueue.Refine.{IsValid, frames, queue_push_refines, take_head-Pops}
use plat.VideoPipeline.Sink.{
  Pipeline, Frame, elapsed, count_frame, close_window, default_frame_sink,
}
use plat.VideoPipeline.Frames.{fill_block}
use plat.VideoPipeline.Frames.Threads.{
  CaptureAt, idle, filling, pushing, dropping, settling_drop, render_settling, occurrences,
  after_push,
}
use plat.VideoPipeline.Frames.Counts.{occurrences-append, occurrences-head}
use plat.VideoPipeline.Frames.Accounted.{
  Accounted, Keeps, refs-fill, refs-sub_ref, refs-store_zero, sub_ref-live, store_zero-live,
}

module _ (pool : Pool) (q : FrameQueue) (b : Bool) (r : Option ℕ) where
  pub acquired-Accounted :
      (i : ℕ) (p : Pool)
      → Accounted pool q idle b r
      → Took pool i p
      → occurrences i (render_settling b r) ≡ 0
      → Accounted p q (filling i) b r
  acquired-Accounted i p a t apart = record {
    live = t.still_live;
    queue_valid = a.queue_valid;
    counted = λ j. ground (arith, t.counts j, a.counted j, a.counted i, t.was_free);
    single = λ j. ground (arith, t.counts j, a.single j);
    settled = λ j h. elim (Bool-cases (j == i)) [
      | inl same ↦
          let e : j ≡ i = ground (arith, same) in
          absurd (omega (arith, ap (λ k. occurrences k (render_settling b r)) e))
      | inr other ↦ ground (arith, t.counts j, a.settled j h, other)
    ];
  }

  pub filled-Accounted :
      (i : ℕ) (f : Block → Block)
      → Keeps f
      → Accounted pool q (filling i) b r
      → Accounted (fill_block f i pool) q (pushing i) b r
  unfolding fill_block
  filled-Accounted i f keeps a = record {
    live = refl;
    queue_valid = a.queue_valid;
    counted = λ j. refs-fill f keeps i pool j ∙ a.counted j;
    single = λ j. omega (arith, refs-fill f keeps i pool j, a.single j);
    settled = λ j h. refs-fill f keeps i pool j ∙ a.settled j h;
  }

  -- The queue had room.
  pushed_room :
      (i : ℕ) (q' : FrameQueue)
      → frames q' ≡ frames q ++ i ∷ []
      → IsValid q'
      → Accounted pool q (pushing i) b r
      → Accounted pool q' idle b r
  pushed_room i q' front valid a = record {
    live = a.live;
    queue_valid = valid;
    counted = λ j.
        omega
          (arith, ap (occurrences j) front, occurrences-append j (frames q) (i ∷ []), a.counted j);
    single = a.single;
    settled = a.settled;
  }

  -- The queue was full, and its oldest block is now in the hands of the capture thread.
  pushed_full :
      (i : ℕ) (q' : FrameQueue)
      → 0 < length (frames q)
      → frames q' ≡ drop 1 (frames q) ++ i ∷ []
      → IsValid q'
      → Accounted pool q (pushing i) b r
      → Accounted pool q' (dropping (get_or (frames q) 0 0)) b r
  pushed_full i q' some_queued front valid a = record {
    live = a.live;
    queue_valid = valid;
    counted = λ j. omega (
      arith,
      ap (occurrences j) front,
      occurrences-append j (drop 1 (frames q)) (i ∷ []),
      occurrences-head j (frames q) some_queued,
      a.counted j,
    );
    single = a.single;
    settled = a.settled;
  }

  pub pushed-Accounted :
      (i : ℕ)
      → Accounted pool q (pushing i) b r
      → let (q', dropped) = queue_push q i in Accounted pool q' (after_push dropped) b r
  unfolding after_push
  pushed-Accounted i a =
      let (front, dropped, valid) = queue_push_refines q i a.queue_valid in
      elim (Bool-cases (leb queue_depth (length (frames q)))) [
        | inl full ↦
            let fact : (queue_push q i).1 ≡ some (get_or (frames q) 0 0) = dropped ∙ rw full refl in
            rw fact (pushed_full i (queue_push q i).0 (ground arith) (front ∙ rw full refl) valid a)
        | inr room ↦
            let fact : (queue_push q i).1 ≡ none = dropped ∙ rw room refl in
            rw fact (pushed_room i (queue_push q i).0 (front ∙ rw room refl) valid a)
      ]

  pub subtracted_drop-Accounted :
      (d : ℕ)
      → Accounted pool q (dropping d) b r
      → Accounted (sub_ref pool d) q (if leb (refs pool d) 1 then settling_drop d else idle) b r
  subtracted_drop-Accounted d a =
      let once : refs pool d ≡ 1 = ground (arith, a.counted d, a.single d) in
      let last : leb (refs pool d) 1 ≡ true = ground (arith, once) in
      rw last (record {
        live = sub_ref-live pool d a.live;
        queue_valid = a.queue_valid;
        counted = λ j. ground (arith, refs-sub_ref pool d a.live j, a.counted j, once);
        single = λ j. ground (arith, refs-sub_ref pool d a.live j, a.single j);
        settled = λ j h. elim (Bool-cases (j == d)) [
          | inl same ↦ ground (arith, refs-sub_ref pool d a.live j, once, same)
          | inr other ↦
              let before : refs pool j ≡ 0 = a.settled j (ground (arith, other, h)) in
              ground (arith, refs-sub_ref pool d a.live j, before, other)
        ];
      })

  pub stored_drop-Accounted :
      (d : ℕ) → Accounted pool q (settling_drop d) b r → Accounted (store_zero pool d) q idle b r
  stored_drop-Accounted d a =
      let before : refs pool d ≡ 0 = a.settled d (ground arith) in
      let same : (j : ℕ) → refs (store_zero pool d) j ≡ refs pool j =
        λ j. ground (arith, refs-store_zero pool d a.live j, before) in
      record {
        live = store_zero-live pool d a.live;
        queue_valid = a.queue_valid;
        counted = λ j. same j ∙ a.counted j;
        single = λ j. omega (arith, same j, a.single j);
        settled = λ j h. same j ∙ a.settled j (omega (arith, h));
      }

module _ (pool : Pool) (q : FrameQueue) (c : CaptureAt) where
  -- What the render thread takes off the queue was its oldest frame.
  pub took-Accounted :
      (b : Bool) (i : ℕ) (q' : FrameQueue)
      → take_head q ≡ popped (some i) q'
      → Accounted pool q c b none
      → Accounted pool q' c false (some i)
  took-Accounted b i q' e a =
      let (found, q'', e', p) = take_head-Pops q a.queue_valid in
      let same_result : found ≡ some i = cc in
      let same_queue : q'' ≡ q' = cc in
      elim p [
        | inl (nothing, same, empty) ↦ absurd (cc)
        | inr (block, is_block, front, valid) ↦
            let same : block ≡ i = cc in
            let left : frames q ≡ i ∷ frames q' =
              front ∙ ap (λ k. k ∷ frames q'') same ∙ ap (λ f. i ∷ frames f) same_queue in
            record {
              live = a.live;
              queue_valid = subst IsValid same_queue valid;
              counted = λ j. omega (arith, a.counted j, ap (occurrences j) left);
              single = a.single;
              settled = a.settled;
            }
      ]

  pub subtracted_shown-Accounted :
      (i : ℕ)
      → Accounted pool q c false (some i)
      → let last = leb (refs pool i) 1 in
        Accounted (sub_ref pool i) q c last (if last then some i else none)
  subtracted_shown-Accounted i a =
      let once : refs pool i ≡ 1 = ground (arith, a.counted i, a.single i) in
      let last : leb (refs pool i) 1 ≡ true = ground (arith, once) in
      rw last (record {
        live = sub_ref-live pool i a.live;
        queue_valid = a.queue_valid;
        counted = λ j. ground (arith, refs-sub_ref pool i a.live j, a.counted j, once);
        single = λ j. ground (arith, refs-sub_ref pool i a.live j, a.single j);
        settled = λ j h. elim (Bool-cases (j == i)) [
          | inl same ↦ ground (arith, refs-sub_ref pool i a.live j, once, same)
          | inr other ↦
              let before : refs pool j ≡ 0 = a.settled j (ground (arith, other, h)) in
              ground (arith, refs-sub_ref pool i a.live j, before, other)
        ];
      })

  pub stored_shown-Accounted :
      (i : ℕ) → Accounted pool q c true (some i) → Accounted (store_zero pool i) q c false none
  stored_shown-Accounted i a =
      let before : refs pool i ≡ 0 = a.settled i (ground arith) in
      let same : (j : ℕ) → refs (store_zero pool i) j ≡ refs pool j =
        λ j. ground (arith, refs-store_zero pool i a.live j, before) in
      record {
        live = store_zero-live pool i a.live;
        queue_valid = a.queue_valid;
        counted = λ j. same j ∙ a.counted j;
        single = λ j. omega (arith, same j, a.single j);
        settled = λ j h. same j ∙ a.settled j (omega (arith, h));
      }

-- The sink leaves the pool, the queue and the render thread's block alone.
abbrev Untouched : Pipeline → Pipeline × Option ℕ × Option Text → Type 0
Untouched pl (shown, fps, text) =
    (shown.pool ≡ pl.pool) × (shown.queue ≡ pl.queue) × (shown.rendering ≡ pl.rendering)

default_frame_sink-Untouched :
    (opened : Bool) (now : ℕ) (frame : Frame) (pl : Pipeline)
    → Untouched pl (default_frame_sink opened now frame pl)
unfolding default_frame_sink count_frame close_window
default_frame_sink-Untouched opened now frame pl =
    if_both (Untouched pl) (leb 1000 (elapsed now (count_frame now pl).stat_window_start_ms)) _ _
      (λ e. (refl, refl, refl)) (λ e. (refl, refl, refl))

pub shown-Accounted :
    (c : CaptureAt) (b opened : Bool) (now : ℕ) (frame : Frame) (pl : Pipeline)
    → Accounted pl.pool pl.queue c b pl.rendering
    → let shown = (default_frame_sink opened now frame pl).0 in
      Accounted shown.pool shown.queue c b shown.rendering
shown-Accounted c b opened now frame pl a =
    let (pool, queue, rendering) = default_frame_sink-Untouched opened now frame pl in
    rw (pool, queue, rendering) a
