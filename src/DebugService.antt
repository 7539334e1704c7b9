-- ===== src/DebugService.antt =====
-- embedded_debug_toolkit/src/service/debug_service.c: the parts of the toolkit together. `V` is the result of
-- the V4L2 probe, and `C` the state behind the plugins' context; that a plugin can change the service
-- itself, which is its context, is not modelled.

pub mod Life
pub mod Init
mod Tests
use plat.Base.{ℕ, Bool, true, false, not, Option, none, some, List, [], ◌==◌, if◌then◌else◌}
use plat.Base.Text.{Text, codes}
use plat.LogicAnalyzer.{Analyzer, LogicConfig}
use plat.LogicAnalyzer.Control.{
  analyzer_init, no_memory, never, created, analyzer_destroy, start, stop, get_sample_rate,
  max_rate_limit, enomem,
}
use plat.Sump.Server.{
  Server, ServerConfig, SocketCalls, server_init, server_start, server_stop, server_destroy,
  or_default,
}
use plat.NetCapture.{
  Capture, Stats, capture_init, capture_start, capture_stop, capture_destroy, get_stats,
}
use plat.SystemMonitor.{
  Monitor, Snapshot, monitor_init, monitor_start, monitor_stop, monitor_destroy, get_latest,
}
use plat.PluginManager.{Manager, Api, manager_init, load_dir, tick, manager_destroy}

-- `edt_service_config_t`; a null text is `none`.
pub record ServiceConfig : Type 0 where
  pub logic : LogicConfig
  pub sump : ServerConfig
  pub net_interface : Option Text
  pub promiscuous : Bool
  pub monitor_interval_ms : ℕ
  pub monitor_iface : Option Text
  pub v4l2_device : Option Text
  pub plugin_dir : Option Text
  pub enable_sump_server : Bool
  pub enable_net_capture : Bool

-- `edt_debug_service_t`.
pub record Service (V C : Type 0) : Type 0 where
  pub config : ServiceConfig
  pub logic : Analyzer
  pub sump_server : Server
  pub net_capture : Capture
  pub system_monitor : Monitor
  pub v4l2_status : V
  pub plugin_manager : Manager C
  pub started : Bool

-- `edt_apply_default_config`.
unfoldable pub service_defaults : ServiceConfig
service_defaults = record {
  logic = record {
    sample_rate_hz = 1000000;
    max_sample_rate_hz = max_rate_limit;
    ring_capacity_samples = 65536;
    simulate_signal = true;
  };
  sump = record { bind_ip = some (codes "0.0.0.0"); port = 9527; capture_samples = 8192 };
  net_interface = some (codes "eth0");
  promiscuous = false;
  monitor_interval_ms = 1000;
  monitor_iface = some (codes "eth0");
  v4l2_device = some (codes "/dev/video0");
  plugin_dir = some (codes "./plugins");
  enable_sump_server = true;
  enable_net_capture = true;
}

unfoldable pub or_text : Option Text → Text → Text
or_text none d = d
or_text (some s) d = s

-- What `edt_debug_service_init` makes of the configuration that it is given.
unfoldable pub merged_config : Option ServiceConfig → ServiceConfig
merged_config none = service_defaults
merged_config (some c) = record c {
  logic = record c.logic {
    max_sample_rate_hz = or_default c.logic.max_sample_rate_hz max_rate_limit;
    sample_rate_hz = or_default c.logic.sample_rate_hz 1000000;
    ring_capacity_samples = or_default c.logic.ring_capacity_samples 65536;
  };
  sump = record {
    bind_ip = some (or_text c.sump.bind_ip (codes "0.0.0.0"));
    port = or_default c.sump.port 9527;
    capture_samples = or_default c.sump.capture_samples 8192;
  };
  net_interface = some (or_text c.net_interface (codes "eth0"));
  monitor_interval_ms = or_default c.monitor_interval_ms 1000;
  monitor_iface = some (or_text c.monitor_iface (or_text c.net_interface (codes "eth0")));
  v4l2_device = some (or_text c.v4l2_device (codes "/dev/video0"));
  plugin_dir = some (or_text c.plugin_dir (codes "./plugins"));
}

-- What an init leaves: the error n for -n, no return, or a service. After an error the parts that had been
-- made are destroyed.
pub data ServiceInit (V C : Type 0) : Type 0 where
  refused : ℕ → ServiceInit V C
  endless : ServiceInit V C
  made : Service V C → ServiceInit V C

-- The results of the system's calls in an init: calloc of the ring and of the plugins' slots, the errors of
-- the two locks, and the directory of the plugins.
pub record InitCalls : Type 0 where
  pub ring_calloc : ℕ → Option (List ℕ)
  pub net_lock : Option ℕ
  pub monitor_lock : Option ℕ
  pub slots_allocated : Bool
  pub plugin_names : Option (List Text)
  pub dir_errno : ℕ

-- The step of an init that may fail with errno; `rest` is what follows it.
unfoldable pub after_lock : {V C : Type 0} → Option ℕ → ServiceInit V C → ServiceInit V C
after_lock none rest = rest
after_lock (some errno) rest = if errno == 0 then rest else refused errno

module _ {V C : Type 0} where
  module _ (probe : Text → V) (dlopen : Text → Option ℕ) (exported : ℕ → Option (Option (Api C)))
      (context : C) where
    unfoldable pub fresh_service : InitCalls → ServiceConfig → Analyzer → Service V C
    fresh_service calls cfg la =
        let plugins = (manager_init calls.slots_allocated 16 context []).1 in
        let dir = or_text cfg.plugin_dir [] in
        record {
          config = cfg;
          logic = la;
          sump_server = server_init (some cfg.sump);
          net_capture = capture_init (some (cfg.net_interface, cfg.promiscuous));
          system_monitor =
              (monitor_init (some (cfg.monitor_interval_ms, cfg.monitor_iface))
                calls.monitor_lock).1;
          v4l2_status = probe (or_text cfg.v4l2_device []);
          plugin_manager =
              (load_dir dlopen exported dir calls.plugin_names calls.dir_errno plugins).1;
          started = false;
        }

    -- The rest of an init, once there is an analyser.
    unfoldable pub init_parts : InitCalls → ServiceConfig → Analyzer → ServiceInit V C
    init_parts calls cfg la =
        let monitor_code =
          (monitor_init (some (cfg.monitor_interval_ms, cfg.monitor_iface)) calls.monitor_lock).0 in
        let plugin_code = (manager_init calls.slots_allocated 16 context []).0 in
        after_lock calls.net_lock (
          if not (monitor_code == 0)
          then refused monitor_code
          else if not (plugin_code == 0)
          then refused plugin_code
          else made (fresh_service calls cfg la))

    -- `edt_debug_service_init`.
    unfoldable pub service_init : InitCalls → Option ServiceConfig → ServiceInit V C
    service_init calls config =
        let cfg = merged_config config in
        elim (analyzer_init calls.ring_calloc (some cfg.logic)) [
          | no_memory ↦ refused enomem
          | never ↦ endless
          | created la ↦ init_parts calls cfg la
        ]

-- The results of the system's calls in a start: whether pthread_create makes the threads of the analyser
-- and of the monitor, and what errno holds then, and the calls for the two sockets.
pub record StartCalls : Type 0 where
  pub logic_made : Bool
  pub logic_errno : ℕ
  pub monitor_made : Bool
  pub monitor_errno : ℕ
  pub net_socket : Option ℕ
  pub net_index : ℕ
  pub net_bound : Bool
  pub net_made : Bool
  pub net_errno : ℕ → ℕ
  pub sump : SocketCalls
  pub sump_errno : ℕ → ℕ

module _ {V C : Type 0} where
  unfoldable pub start_net : StartCalls → Service V C → Service V C
  start_net calls s =
      let (code, net) =
        capture_start calls.net_socket calls.net_index calls.net_bound calls.net_made
          calls.net_errno s.net_capture in
      if not s.config.enable_net_capture
      then s
      else if code == 0
      then record s { net_capture = net }
      else record s { net_capture = net; config = record s.config { enable_net_capture = false } }

  unfoldable pub start_sump : StartCalls → Service V C → Service V C
  start_sump calls s =
      let (code, server) = server_start calls.sump calls.sump_errno s.sump_server in
      if not s.config.enable_sump_server
      then s
      else if code == 0
      then record s { sump_server = server }
      else record s {
        sump_server = server;
        config = record s.config { enable_sump_server = false };
      }

  -- `edt_debug_service_start`.
  unfoldable pub service_start : StartCalls → Service V C → ℕ × Service V C
  service_start calls s =
      let (logic_code, logic) = start s.logic calls.logic_made calls.logic_errno in
      let (monitor_code, monitor) =
        monitor_start calls.monitor_made calls.monitor_errno s.system_monitor in
      let both : Service V C = record s { logic = logic; system_monitor = monitor } in
      if s.started
      then (0, s)
      else if not (logic_code == 0)
      then (logic_code, record s { logic = logic })
      else if not (monitor_code == 0)
      then (monitor_code, record both { logic = (stop logic).1 })
      else (0, record (start_sump calls (start_net calls both)) { started = true })

  -- `edt_debug_service_stop`, which returns 0.
  unfoldable pub service_stop : Service V C → Service V C
  service_stop s =
      if s.started
      then record s {
        sump_server = (server_stop s.sump_server).1;
        net_capture = (capture_stop s.net_capture).1;
        system_monitor = (monitor_stop s.system_monitor).1;
        logic = (stop s.logic).1;
        started = false;
      }
      else s

  -- `edt_debug_service_destroy`.
  unfoldable pub service_destroy : Service V C → Service V C
  service_destroy s =
      let stopped = service_stop s in
      record stopped {
        plugin_manager = manager_destroy stopped.plugin_manager;
        system_monitor = monitor_destroy stopped.system_monitor;
        net_capture = capture_destroy stopped.net_capture;
        sump_server = server_destroy stopped.sump_server;
        logic = analyzer_destroy stopped.logic;
      }

  -- `edt_debug_service_poll_plugins`, which returns what the tick returns, 0.
  unfoldable pub poll_plugins : Service V C → Service V C
  poll_plugins s = record s { plugin_manager = tick s.plugin_manager }

-- `edt_service_status_t`.
pub record ServiceStatus (V : Type 0) : Type 0 where
  pub timestamp_ns : ℕ
  pub sample_rate_hz : ℕ
  pub total_samples : ℕ
  pub dropped_samples : ℕ
  pub net_stats : Stats
  pub sys_stats : Snapshot
  pub v4l2_status : V

-- `edt_debug_service_get_status` at the time `now`.
unfoldable pub get_status : {V C : Type 0} → ℕ → Service V C → ServiceStatus V
get_status now s = record {
  timestamp_ns = now;
  sample_rate_hz = get_sample_rate s.logic;
  total_samples = s.logic.total_samples;
  dropped_samples = s.logic.dropped_samples;
  net_stats = (get_stats s.net_capture).1;
  sys_stats = (get_latest s.system_monitor).1;
  v4l2_status = s.v4l2_status;
}
