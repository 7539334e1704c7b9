-- ===== src/HubMain/Program/Exits.antt =====
-- Every way out of `main` leaves nothing behind.
use mathlib.Core.Path.{subst}
use plat.Base.{
  ℕ, ◌≡◌, refl, ◌⊎◌, inl, inr, Bool, true, false, Option, none, some, List, [], if◌then◌else◌,
  if_both, arith,
}
use plat.MemoryPool.{Pool, destroy}
use plat.Device.{Hal, hal_deinit, device_close, with_handle, closed_handle}
use plat.MediaPlayer.{Player, Child, player_init, player_deinit}
use plat.MediaPlayer.Children.{IsOwned, player_stop-clean}
use plat.HubConfig.{Config, FileRead, load_config}
use plat.Mqtt.Thread.{Service, service_start, service_stop}
use plat.VideoPipeline.Sink.{Pipeline}
use plat.VideoPipeline.Start.{Video, fresh_camera, fresh_pipeline, video_stop}
use plat.VideoPipeline.Start.Release.{
  leaves_junk, IsReleased, IsHeld, Starts, video_start-Starts, video_stop-IsReleased,
}
use plat.HubMain.Program.{
  Machine, HubCalls, Served, size_of, unstarted, change_pool, stop_parts, shut_and_destroy, serve,
  run_service, run_pool, hub_main,
}

abbrev IsShut : Hal → Type 0
IsShut hal =
    (hal.led_handle.fd ≡ none) × (hal.dht11_handle.fd ≡ none) × (hal.camera_handle.fd ≡ none)

-- Nothing is left of any part.
pub record IsClean (m : Machine) : Type 0 where
  pub devices : IsShut m.hal
  pub stopped : IsReleased m.video
  pub no_blocks : m.video.pipeline.pool.blocks ≡ none
  pub no_player : m.media.pid ≡ none
  pub no_children : m.children ≡ []
  pub no_thread : m.mqtt.thread ≡ false
  pub no_impl : m.mqtt.impl ≡ none

-- A pipeline that is stopped, or that its stop stops.
abbrev IsStoppable : Video → Type 0
IsStoppable v = IsHeld v ⊎ IsReleased v

video_stop-IsStopped : (v : Video) → IsStoppable v → IsReleased (video_stop v)
unfolding video_stop
video_stop-IsStopped v (inl h) = video_stop-IsReleased v h
video_stop-IsStopped v (inr stopped) =
    if_both IsReleased v.allocated _ _ (λ f. absurd (ground (arith, stopped.0, f))) (λ f. stopped)

hal_deinit-IsShut : (hal : Hal) → IsShut (hal_deinit hal).0
unfolding hal_deinit device_close with_handle
hal_deinit-IsShut hal = (refl, refl, refl)

unstarted-IsClean : IsClean unstarted
unfolding unstarted fresh_camera fresh_pipeline player_init closed_handle
unstarted-IsClean = record {
  devices = (refl, refl, refl);
  stopped = (refl, refl, refl, refl, (refl, refl, refl));
  no_blocks = refl;
  no_player = refl;
  no_children = refl;
  no_thread = refl;
  no_impl = refl;
}

-- What `stop_parts` needs: a pipeline that its stop stops, the player's children and no others, and the service
-- stopped.
record IsReady (m : Machine) : Type 0 where
  stoppable : IsStoppable m.video
  owned : IsOwned m.media m.children
  no_thread : m.mqtt.thread ≡ false
  no_impl : m.mqtt.impl ≡ none

stop_parts-IsClean :
    (close_pool : Pool → Pool) (closes : (pool : Pool) → (close_pool pool).blocks ≡ none)
    (exited : ℕ → Bool) (m : Machine)
    → IsReady m
    → IsClean (stop_parts close_pool exited m)
unfolding stop_parts change_pool player_deinit
stop_parts-IsClean close_pool closes exited m ready =
    let (no_pid, no_children) = player_stop-clean exited m.media m.children ready.owned in
    record {
      devices = hal_deinit-IsShut m.hal;
      stopped = video_stop-IsStopped m.video ready.stoppable;
      no_blocks = closes (video_stop m.video).pipeline.pool;
      no_player = no_pid;
      no_children = no_children;
      no_thread = ready.no_thread;
      no_impl = ready.no_impl;
    }

served-IsStoppable :
    (frames : Pipeline → Pipeline) (v : Video)
    → IsStoppable v
    → IsStoppable (if v.allocated then record v { pipeline = frames v.pipeline } else v)
served-IsStoppable frames v (inl h) =
    if_both IsStoppable v.allocated _ _ (λ f. inl h) (λ f. absurd (ground (arith, h.0, f)))
served-IsStoppable frames v (inr stopped) =
    if_both IsStoppable v.allocated _ _ (λ f. absurd (ground (arith, stopped.0, f)))
      (λ f. inr stopped)

-- A join of no thread is not undone.
abbrev HasMisjoined : Video → Type 0
HasMisjoined v = v.misjoined ≡ true

video_stop-misjoined : (v : Video) → HasMisjoined v → HasMisjoined (video_stop v)
unfolding video_stop
video_stop-misjoined v h = if_both HasMisjoined v.allocated _ _ (λ e. ground (arith, h)) (λ e. h)

served-misjoined :
    (frames : Pipeline → Pipeline) (v : Video)
    → HasMisjoined v
    → HasMisjoined (if v.allocated then record v { pipeline = frames v.pipeline } else v)
served-misjoined frames v h = if_both HasMisjoined v.allocated _ _ (λ e. h) (λ e. h)

-- The player's calls leave it with its own process and no other.
pub record KeepsOwned (play : Player × List Child → Player × List Child) : Type 0 where
  pub owned :
      (mp : Player) (cs : List Child)
      → IsOwned mp cs
      → let (mp', cs') = play (mp, cs) in IsOwned mp' cs'

abbrev pub LeavesClean : ℕ × Machine → Type 0
LeavesClean (status, m) = IsClean m

-- The end of `main`; `left` is whether a pthread_create that failed has left a handle that is not 0.
abbrev pub Leaves : Bool → ℕ × Machine → Type 0
Leaves left (status, m) = IsClean m ⊎ ((left ≡ true) × (m.video.misjoined ≡ true))

serve-IsReady :
    (served : Served) (keeps : KeepsOwned served.play) (m : Machine) (stopped : Service)
    → IsStoppable m.video
    → IsOwned m.media m.children
    → stopped.thread ≡ false
    → stopped.impl ≡ none
    → IsReady (record (serve served m) { mqtt = stopped })
unfolding serve
serve-IsReady served keeps m stopped v owned no_thread no_impl = record {
  stoppable = served-IsStoppable served.frames m.video v;
  owned = keeps.owned m.media m.children owned;
  no_thread = no_thread;
  no_impl = no_impl;
}

-- The service is over: as its start leaves it if it fails, or else once it is stopped.
abbrev IsOver : Service → Type 0
IsOver svc = (svc.thread ≡ false) × (svc.impl ≡ none)

abbrev ending : Bool × Service → Service
ending (ok, svc) = if ok then service_stop svc else svc

service_start-ends :
    (cfg : Config) (allocated made : Bool) → IsOver (ending (service_start cfg allocated made))
unfolding service_start service_stop
service_start-ends cfg false made = (refl, refl)
service_start-ends cfg true true = (refl, refl)
service_start-ends cfg true false = (refl, refl)

module _ (calls : HubCalls) (served : Served) (keeps : KeepsOwned served.play) where
  run_service-IsClean :
      (cfg : Config) (m : Machine)
      → IsStoppable m.video
      → IsOwned m.media m.children
      → LeavesClean (run_service calls served cfg m)
  unfolding run_service serve destroy shut_and_destroy
  run_service-IsClean cfg m v owned =
      let (ok, mqtt) = service_start cfg calls.mqtt_allocated calls.mqtt_made in
      let ends = service_start-ends cfg calls.mqtt_allocated calls.mqtt_made in
      if_both LeavesClean ok _ _
        (λ e.
          let (no_thread, no_impl) = subst (λ b. IsOver (ending (b, mqtt))) e ends in
          stop_parts-IsClean shut_and_destroy (λ pool. refl) served.exited _
            (serve-IsReady served keeps (record m { mqtt = mqtt }) (service_stop mqtt) v owned
              no_thread no_impl))
        (λ e.
          let (no_thread, no_impl) = subst (λ b. IsOver (ending (b, mqtt))) e ends in
          stop_parts-IsClean destroy (λ pool. refl) served.exited _
            (record {
              stoppable = served-IsStoppable served.frames m.video v;
              owned = owned;
              no_thread = no_thread;
              no_impl = no_impl;
            }))

  run_service-misjoined :
      (cfg : Config) (m : Machine)
      → HasMisjoined m.video
      → let (status, m') = run_service calls served cfg m in HasMisjoined m'.video
  unfolding run_service serve stop_parts change_pool
  run_service-misjoined cfg m h =
      let kept = video_stop-misjoined _ (served-misjoined served.frames m.video h) in
      if_both (λ (r : ℕ × Machine). HasMisjoined r.1.video)
        (service_start cfg calls.mqtt_allocated calls.mqtt_made).0 _ _ (λ e. kept) (λ e. kept)

  started-Leaves :
      (cfg : Config) (m : Machine) (left ok : Bool)
      → Starts left (ok, m.video)
      → IsOwned m.media m.children
      → Leaves left (run_service calls served cfg m)
  started-Leaves cfg m left ok (inl (l, e, held)) owned =
      inl (run_service-IsClean cfg m (inl held) owned)
  started-Leaves cfg m left ok (inr (inl (l, e, stopped))) owned =
      inl (run_service-IsClean cfg m (inr stopped) owned)
  started-Leaves cfg m left ok (inr (inr (l, e, freed, joined))) owned =
      inr (l, run_service-misjoined cfg m joined)

  run_pool-Leaves :
      (cfg : Config) (hal : Hal) (pool : Option Pool)
      → Leaves
          (leaves_junk calls.video_allocated calls.threads)
          (run_pool calls served cfg hal pool)
  unfolding run_pool unstarted player_init fresh_pipeline
  run_pool-Leaves cfg hal none = inl (record {
    devices = hal_deinit-IsShut hal;
    stopped = unstarted-IsClean.stopped;
    no_blocks = refl;
    no_player = refl;
    no_children = refl;
    no_thread = refl;
    no_impl = refl;
  })
  run_pool-Leaves cfg hal (some pool) =
      started-Leaves cfg _ _ _
        (video_start-Starts calls.video_allocated calls.camera calls.threads calls.joined pool
          (size_of cfg.video_width) (size_of cfg.video_height))
        refl

  -- Whatever the configuration file holds, whichever calls of the system fail while the hub is started, and
  -- whatever its threads do until a signal, the player's calls leaving it just its own process: when `main`
  -- returns, no handle of a device holds a descriptor, no mapping of the camera is open, the frame pool is
  -- destroyed, no child process is left, and the threads of the video pipeline and of the MQTT service have
  -- ended and their private parts are freed; unless a pthread_create of the pipeline has failed and left a
  -- handle that is not 0, which is then joined though it is no thread's. (Descriptors that two threads open
  -- for one handle at the same time are not counted.)
  pub hub_main-IsClean :
      (file : FileRead)
      → Leaves (leaves_junk calls.video_allocated calls.threads) (hub_main file calls served)
  unfolding hub_main
  hub_main-IsClean file =
      if_both (Leaves (leaves_junk calls.video_allocated calls.threads)) (load_config file).0 _ _
        (λ e. run_pool-Leaves _ _ _) (λ e. inl unstarted-IsClean)
