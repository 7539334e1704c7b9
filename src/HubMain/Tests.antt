-- ===== src/HubMain/Tests.antt =====
-- The theorems of the hub's program at concrete messages and failures.
use plat.Base.{ℕ, ◌≡◌, refl, Bool, true, false, Option, none, some, List, [], ◌∷◌, replicate, arith}
use plat.Base.Int.{pos}
use plat.Base.Text.{Text, codes, print_nat, is_space}
use plat.Json.{is_nil}
use plat.Json.Find.{IsId}
use plat.LedDriver.{Led}
use plat.Device.{Handle}
use plat.Device.RoundTrip.{driver_reads, driver_writes}
use plat.MediaPlayer.Children.{after_call, plays, children-IsOwned}
use plat.HubConfig.{missing, default_config}
use plat.Rpc.{Hub}
use plat.Rpc.Requests.{led_request, done_text}
use plat.Mqtt.Library.{Paho}
use plat.Mqtt.Thread.{State, event, arrived}
use plat.VideoPipeline.Camera.{CameraCalls}
use plat.HubMain.{Moment, Runtime, hub_wiring}
use plat.HubMain.Messages.{with_led, message-switches_led}
use plat.HubMain.Program.{HubCalls, Served, hub_main}
use plat.HubMain.Program.Exits.{Leaves, KeepsOwned, hub_main-IsClean}

abbrev shut : Handle
shut = record { fd = none; path = [] }

abbrev home : Hub Led
home = record {
  hal = record {
    led_handle = record { fd = some 3; path = [] };
    dht11_handle = shut;
    camera_handle = shut;
  };
  world = record {
    gpio_held = true;
    level = 1;
    chrdev_held = true;
    class_held = true;
    device_held = true;
  };
  media = some (record { pid = none; default_file = [] });
  children = [];
}

-- A library that keeps the texts that it has been given.
abbrev library : Paho (List Text)
library = record {
  create = λ address id w. (true, w);
  set_callbacks = λ w. (true, w);
  connect = λ keepalive name password w. (true, w);
  subscribe = λ topic qos w. (true, w);
  publish_message = λ topic payload qos w. (true, payload ∷ w);
  wait_for_completion = λ w. w;
  disconnect = λ w. w;
  destroy = λ w. w;
  yield = λ w. w;
  is_connected = λ w. true;
}

abbrev no_opens : List ℕ → Bool → Option ℕ
no_opens path block = none

abbrev moment : ℕ → Moment
moment n = record {
  stale_method = replicate 64 1;
  stale_file = [];
  stale_dht = [];
  exited = λ p. false;
  fork = none;
}

abbrev connected : State (List Text) (Runtime Led)
connected = record {
  impl = record {
    client_created = true;
    connected = true;
    reconnect_backoff = pos 5;
    last_report_ms = 0;
  };
  user = record { hub = some home; calls = 0 };
  sleeps = [];
  library = [];
}

seven-IsId : IsId (codes "7")
unfolding is_space is_nil
seven-IsId = record { plain = ground arith; some_byte = refl; short = omega arith }

message-switches_led_example :
    event library
      (hub_wiring no_opens driver_reads driver_writes moment)
      default_config
      connected
      (arrived true (codes "/iot/down") (led_request (print_nat 1) (codes "7")))
    ≡ record connected {
      user = record { hub = some (with_led home 1); calls = 1 };
      library = done_text (codes "7") ∷ [];
    }
message-switches_led_example =
    message-switches_led library default_config no_opens moment 3 home refl 1 (codes "7")
      (codes "/iot/down") connected (omega arith) seven-IsId refl refl refl refl refl

-- A camera that cannot be opened, and a render thread that cannot be made, whose handle is left not 0.
abbrev no_camera : CameraCalls
no_camera = record {
  opened = none;
  querycap = false;
  set_format = none;
  reqbufs = none;
  querybuf = λ i. false;
  mmap = λ i. none;
  qbuf = λ i. false;
  streamon = false;
}

abbrev half_started : HubCalls
half_started = record {
  opens = no_opens;
  array = true;
  calloc = λ i size. some [];
  video_allocated = true;
  camera = no_camera;
  threads = record {
    capture_made = true;
    capture_left = false;
    render_made = false;
    render_left = true;
  };
  joined = λ pl. pl;
  mqtt_allocated = true;
  mqtt_made = true;
}

-- A file is played, and still plays at the end.
abbrev played : Served
played = record {
  frames = λ pl. pl;
  play = λ s. after_call s (plays (λ p. false) (some 9) (some (codes "a.wav")));
  devices = λ hal. hal;
  exited = λ p. false;
}

played-KeepsOwned : KeepsOwned played.play
played-KeepsOwned = record {
  owned =
      λ mp cs h. children-IsOwned mp cs (plays (λ p. false) (some 9) (some (codes "a.wav")) ∷ []) h;
}

hub_main-IsClean_example : Leaves true (hub_main missing half_started played)
hub_main-IsClean_example = hub_main-IsClean half_started played played-KeepsOwned missing
