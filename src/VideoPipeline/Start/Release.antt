-- ===== src/VideoPipeline/Start/Release.antt =====
-- Start and stop of video_pipeline.c give the threads, the private part and the camera back.
use plat.Base.{
  ℕ, ◌≡◌, refl, ◌⊎◌, inl, inr, Bool, true, false, not, ◌&&◌, ◌||◌, if◌then◌else◌, arith,
}
use plat.MemoryPool.{Pool}
use plat.VideoPipeline.Sink.{Pipeline}
use plat.VideoPipeline.Camera.{Camera, CameraCalls, open_v4l2, close_v4l2}
use plat.VideoPipeline.Camera.Balance.{IsClosed, sized, open_v4l2-Opens, Opens-closes}
use plat.VideoPipeline.Start.{
  unset, ThreadCalls, handle_of, is_junk, Video, fresh_camera, video_stop, start_threads,
  video_start,
}

-- Whether a call of pthread_create fails and leaves a handle that is not 0; the second is made after the first.
abbrev pub leaves_junk : Bool → ThreadCalls → Bool
leaves_junk allocated t =
    allocated
    && ((not t.capture_made && t.capture_left)
        || (t.capture_made && (not t.render_made && t.render_left)))

-- Nothing of the pipeline is left.
abbrev pub IsReleased : Video → Type 0
IsReleased v =
    (v.allocated ≡ false)
    × (v.capture_thread ≡ unset)
    × (v.render_thread ≡ unset)
    × (v.misjoined ≡ false)
    × IsClosed v.camera

-- A pipeline whose stop releases it.
abbrev pub IsHeld : Video → Type 0
IsHeld v =
    (v.allocated ≡ true)
    × (is_junk v.capture_thread ≡ false)
    × (is_junk v.render_thread ≡ false)
    × (v.misjoined ≡ false)
    × IsClosed (close_v4l2 v.camera)

-- A result of the start: the pipeline runs, or it is released, or a handle that is no thread's has been joined.
abbrev pub Starts : Bool → Bool × Video → Type 0
Starts left (ok, v) =
    ((left ≡ false) × (ok ≡ true) × IsHeld v)
    ⊎ ((left ≡ false) × (ok ≡ false) × IsReleased v)
    ⊎ ((left ≡ true) × (ok ≡ false) × (v.allocated ≡ false) × (v.misjoined ≡ true))

start_threads-Starts :
    (cm cl rm rl : Bool) (joined : Pipeline → Pipeline) (pool : Pool) (camera : Camera)
    → IsClosed (close_v4l2 camera)
    → let t : ThreadCalls = record {
      capture_made = cm;
      capture_left = cl;
      render_made = rm;
      render_left = rl;
    } in
      Starts (leaves_junk true t) (start_threads t joined pool camera)
unfolding start_threads handle_of is_junk video_stop
start_threads-Starts false true rm rl joined pool camera closed = inr (inr (refl, refl, refl, refl))
start_threads-Starts false false rm rl joined pool camera closed =
    inr (inl (refl, refl, (refl, refl, refl, refl, closed)))
start_threads-Starts true cl false true joined pool camera closed =
    inr (inr (refl, refl, refl, refl))
start_threads-Starts true cl false false joined pool camera closed =
    inr (inl (refl, refl, (refl, refl, refl, refl, closed)))
start_threads-Starts true cl true rl joined pool camera closed =
    inl (refl, refl, (refl, refl, refl, refl, closed))

pub video_start-Starts :
    (allocated : Bool) (calls : CameraCalls) (t : ThreadCalls) (joined : Pipeline → Pipeline)
    (pool : Pool) (width height : ℕ)
    → Starts (leaves_junk allocated t) (video_start allocated calls t joined pool width height)
unfolding video_start fresh_camera
video_start-Starts true calls t joined pool width height =
    let camera = (open_v4l2 calls (sized width height)).1 in
    let closed =
      Opens-closes calls (open_v4l2 calls (sized width height))
        (open_v4l2-Opens calls width height) in
    start_threads-Starts t.capture_made t.capture_left t.render_made t.render_left joined pool
      camera closed
video_start-Starts false calls t joined pool width height =
    inr (inl (refl, refl, (refl, refl, refl, refl, (refl, refl, refl))))

pub video_stop-IsReleased : (v : Video) → IsHeld v → IsReleased (video_stop v)
unfolding video_stop
video_stop-IsReleased v (e, capture, render, joins, closed) =
    rw e (refl, refl, refl, rw (joins, capture, render) refl, closed)

-- A pipeline from its start to its stop, if it starts; `run` is what the threads do to it.
abbrev pub until_stop : (Pipeline → Pipeline) → Bool × Video → Video
until_stop run (ok, v) = if ok then video_stop (record v { pipeline = run v.pipeline }) else v

abbrev pub Ends : Bool → Video → Type 0
Ends left v =
    ((left ≡ false) × IsReleased v) ⊎ ((left ≡ true) × (v.allocated ≡ false) × (v.misjoined ≡ true))

until_stop-Ends :
    (run : Pipeline → Pipeline) (left ok : Bool) (v : Video)
    → Starts left (ok, v)
    → Ends left (until_stop run (ok, v))
until_stop-Ends run left true v (inl (l, e, h)) = inl (l, video_stop-IsReleased _ h)
until_stop-Ends run left false v (inl (l, e, h)) = absurd (ground (arith, e))
until_stop-Ends run left true v (inr (inl (l, e, h))) = absurd (ground (arith, e))
until_stop-Ends run left false v (inr (inl (l, e, h))) = inl (l, h)
until_stop-Ends run left true v (inr (inr (l, e, h, m))) = absurd (ground (arith, e))
until_stop-Ends run left false v (inr (inr (l, e, h, m))) = inr (l, h, m)

-- Whichever of the system's calls fail, whether or not the camera can be opened, and whatever the threads do
-- to the pipeline until they are joined, for a pipeline that is started and stopped, or whose start fails: unless
-- a pthread_create that fails leaves a handle that is not 0, no handle and no private part is left, no
-- handle that is no thread's has been joined, and the system holds no descriptor and no mapping for it; and if
-- one does, `hub_video_pipeline_stop` joins that handle, which is no thread's.
pub video_start-IsReleased :
    (run joined : Pipeline → Pipeline) (allocated : Bool) (calls : CameraCalls) (t : ThreadCalls)
    (pool : Pool) (width height : ℕ)
    → Ends
        (leaves_junk allocated t)
        (until_stop run (video_start allocated calls t joined pool width height))
video_start-IsReleased run joined allocated calls t pool width height =
    until_stop-Ends run (leaves_junk allocated t) _ _
      (video_start-Starts allocated calls t joined pool width height)
