-- ===== src/HubMain/Program.antt =====
-- `main` of smart_home_hub/src/main.c: the parts in the order of their start, and what each way out stops. A
-- negative size of the picture is not modelled; the parts' own files say what the arguments of their calls are.
pub mod Exits
use plat.Base.{ℕ, ◌-◌, ◌^◌, Bool, false, Option, none, some, List, [], ◌++◌, if◌then◌else◌}
use plat.Base.Int.{ℤ, pos, negsuc}
use plat.MemoryPool.{Pool, init, shut_down, destroy}
use plat.Device.{Hal, closed_handle, hal_init, hal_deinit}
use plat.MediaPlayer.{Player, Child, player_init, player_deinit}
use plat.HubConfig.{Config, FileRead, load_config}
use plat.Rpc.{text_of}
use plat.Mqtt.Thread.{Service, service_start, service_stop}
use plat.VideoPipeline.Sink.{Pipeline}
use plat.VideoPipeline.Camera.{CameraCalls}
use plat.VideoPipeline.Start.{
  ThreadCalls, unset, Video, fresh_camera, fresh_pipeline, video_start, video_stop,
}

-- `hub_runtime_t`, the children of the process, and the descriptors of the devices that have been closed. The
-- pool is the one that the pipeline points to.
pub record Machine : Type 0 where
  pub hal : Hal
  pub closed_fds : List ℕ
  pub video : Video
  pub media : Player
  pub children : List Child
  pub mqtt : Service

-- What the system answers to the calls of the start.
pub record HubCalls : Type 0 where
  pub opens : List ℕ → Bool → Option ℕ
  pub array : Bool
  pub calloc : ℕ → ℕ → Option (List ℕ)
  pub video_allocated : Bool
  pub camera : CameraCalls
  pub threads : ThreadCalls
  pub joined : Pipeline → Pipeline
  pub mqtt_allocated : Bool
  pub mqtt_made : Bool

-- What the threads do between the start and the stop: to the frames, the player and its children, and the
-- devices. `exited` is what waitpid finds at the end.
pub record Served : Type 0 where
  pub frames : Pipeline → Pipeline
  pub play : Player × List Child → Player × List Child
  pub devices : Hal → Hal
  pub exited : ℕ → Bool

-- An int as a size_t.
unfoldable pub size_of : ℤ → ℕ
size_of (pos n) = n
size_of (negsuc n) = 2 ^ 64 - 1 - n

abbrev pub no_pool : Pool
no_pool = record { blocks = none; block_count = 0; block_size = 0; shutdown = false }

abbrev pub no_video : Pool → Video
no_video pool = record {
  pipeline = fresh_pipeline pool 0 0 false;
  camera = fresh_camera 0 0;
  allocated = false;
  capture_thread = unset;
  render_thread = unset;
  misjoined = false;
}

-- Before the first part is started.
unfoldable pub unstarted : Machine
unstarted = record {
  hal = record {
    led_handle = closed_handle [];
    dht11_handle = closed_handle [];
    camera_handle = closed_handle [];
  };
  closed_fds = [];
  video = no_video no_pool;
  media = player_init none;
  children = [];
  mqtt = record { running = false; thread = false; impl = none };
}

unfoldable pub change_pool : (Pool → Pool) → Video → Video
change_pool f v = record v { pipeline = record v.pipeline { pool = f v.pipeline.pool } }

-- The calls that end both ways out of a start that has reached the pool; `close_pool` is what is done with it.
unfoldable pub stop_parts : (Pool → Pool) → (ℕ → Bool) → Machine → Machine
stop_parts close_pool exited m =
    let (media, children) = player_deinit exited m.media m.children in
    let (hal, fds) = hal_deinit m.hal in
    record m {
      video = change_pool close_pool (video_stop m.video);
      media = media;
      children = children;
      hal = hal;
      closed_fds = m.closed_fds ++ fds;
    }

unfoldable pub shut_and_destroy : Pool → Pool
shut_and_destroy pool = destroy (shut_down pool)

-- The threads of the parts that are there, until a signal.
unfoldable pub serve : Served → Machine → Machine
serve served m =
    let (media, children) = served.play (m.media, m.children) in
    let pl = m.video.pipeline in
    record m {
      hal = served.devices m.hal;
      video = if m.video.allocated then record m.video { pipeline = served.frames pl } else m.video;
      media = media;
      children = children;
    }

-- From the start of the service on. Without it no message has come, so the player has not been used.
unfoldable pub run_service : HubCalls → Served → Config → Machine → ℕ × Machine
run_service calls served cfg m =
    let (ok, mqtt) = service_start cfg calls.mqtt_allocated calls.mqtt_made in
    let v =
      if m.video.allocated
      then record m.video { pipeline = served.frames m.video.pipeline }
      else m.video in
    let busy = serve served (record m { mqtt = mqtt }) in
    if ok
    then (
      0,
      stop_parts shut_and_destroy served.exited (record busy { mqtt = service_stop busy.mqtt }),
    )
    else (1, stop_parts destroy served.exited (record m { mqtt = mqtt; video = v }))

-- From the pool on. A pipeline that does not start is done without.
unfoldable pub run_pool : HubCalls → Served → Config → Hal → Option Pool → ℕ × Machine
run_pool calls served cfg hal none =
    let (closed, fds) = hal_deinit hal in (1, record unstarted { hal = closed; closed_fds = fds })
run_pool calls served cfg hal (some pool) =
    let (started, video) =
      video_start calls.video_allocated calls.camera calls.threads calls.joined pool
        (size_of cfg.video_width) (size_of cfg.video_height) in
    run_service calls served cfg (record unstarted {
      hal = hal;
      media = player_init (some (text_of cfg.media_default_file));
      video = video;
    })

-- `main`: its exit status, and what is left of the parts.
unfoldable pub hub_main : FileRead → HubCalls → Served → ℕ × Machine
hub_main file calls served =
    let (loaded, cfg) = load_config file in
    let hal =
      hal_init calls.opens (text_of cfg.led_dev) (text_of cfg.dht11_dev) (text_of cfg.video_dev) in
    let pool = init calls.array calls.calloc (size_of cfg.pool_block_size) cfg.pool_block_count in
    if loaded then run_pool calls served cfg hal pool else (1, unstarted)
