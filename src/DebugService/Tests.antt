-- ===== src/DebugService/Tests.antt =====
-- The theorem of the service at a history in which the packet capture, and then the monitor, do not start.
use plat.Base.{ℕ, ◌≡◌, refl, true, false, Option, none, some, List, [], ◌∷◌, replicate}
use plat.Base.Text.{Text}
use plat.PluginManager.{Api, manager_init}
use plat.LogicAnalyzer.{Analyzer}
use plat.LogicAnalyzer.Control.{
  analyzer_init, idle_analyzer, fixed_config, config_or_default, fixed_rate, fixed_max,
}
use plat.RingBuffer.{init, rounded_capacity, is_power_of_two, fresh_ring}
use plat.Sump.Server.{or_default}
use plat.SystemMonitor.{monitor_init}
use plat.DebugService.{
  Service, ServiceConfig, made, StartCalls, InitCalls, service_defaults, merged_config, after_lock,
  init_parts, fresh_service, service_init, service_destroy,
}
use plat.DebugService.Life.{Call, starts, stops, polls, IsStopped, IsWhole, after_calls}
use plat.DebugService.Init.{service_calls-IsWhole}

-- An init in which everything succeeds but the opening of the plugins' directory.
abbrev calls : InitCalls
calls = record {
  ring_calloc = λ n. some (replicate n 0);
  net_lock = none;
  monitor_lock = none;
  slots_allocated = true;
  plugin_names = none;
  dir_errno = 2;
}

abbrev no_library : Text → Option ℕ
no_library path = none

abbrev no_exports : ℕ → Option (Option (Api ℕ))
no_exports h = none

abbrev no_socket : StartCalls
no_socket = record {
  logic_made = true;
  logic_errno = 0;
  monitor_made = true;
  monitor_errno = 0;
  net_socket = none;
  net_index = 2;
  net_bound = true;
  net_made = true;
  net_errno = λ n. 1;
  sump = record { socket = some 5; is_address = true; bound = true; listens = true; made = true };
  sump_errno = λ n. 0;
}

abbrev history : List Call
history =
    starts no_socket
    ∷ polls
    ∷ stops
    ∷ starts (record no_socket { monitor_made = false; monitor_errno = 11 })
    ∷ []

abbrev small : ServiceConfig
small = record service_defaults {
  logic = record {
    sample_rate_hz = 0;
    max_sample_rate_hz = 0;
    ring_capacity_samples = 1;
    simulate_signal = true;
  };
}

abbrev small_analyzer : Analyzer
small_analyzer =
    idle_analyzer
      (record {
        sample_rate_hz = 1000000;
        max_sample_rate_hz = 100000000;
        ring_capacity_samples = 1;
        simulate_signal = true;
      })
      (record {
        bytes = some (replicate 16 0);
        capacity = 16;
        mask = 15;
        write_pos = 0;
        read_pos = 0;
      })

abbrev small_service : Service Unit ℕ
small_service =
    fresh_service (λ device. tt) no_library no_exports 0 calls (merged_config (some small))
      small_analyzer

small_service-made :
    service_init (λ device. tt) no_library no_exports 0 calls (some small) ≡ made small_service
unfolding service_init init_parts merged_config service_defaults analyzer_init after_lock
    monitor_init manager_init init fixed_config config_or_default or_default rounded_capacity
    is_power_of_two fixed_rate fixed_max fresh_ring
small_service-made = refl

service_calls-IsWhole_example :
    let s = after_calls small_service history in IsWhole s × IsStopped (service_destroy s)
service_calls-IsWhole_example =
    service_calls-IsWhole (λ device. tt) no_library no_exports 0 calls (some small) small_service
      history small_service-made
