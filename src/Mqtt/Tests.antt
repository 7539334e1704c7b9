-- ===== src/Mqtt/Tests.antt =====
-- The theorems of the MQTT service with a concrete library, whose broker answers from the third attempt
-- on, or never.
use plat.Base.{
  ℕ, suc, ◌-◌, ◌≤◌, ◌≡◌, refl, Bool, true, false, Option, none, some, List, [], ◌∷◌, map, length,
  ltb, ◌⊎◌, arith,
}
use plat.Base.Int.{pos}
use plat.Base.Text.{codes}
use plat.HubConfig.{default_config}
use plat.Mqtt.{Callback}
use plat.Mqtt.Library.{Paho, CountsClients}
use plat.Device.{Hal}
use plat.Mqtt.Thread.{
  Wiring, State, Round, Event, round, lost, arrived, event, events, mqtt_thread_main, fresh_impl,
}
use plat.Mqtt.Clients.{IsReleased, mqtt_thread_main-IsReleased}
use plat.Mqtt.Backoff.{backoff_settles}

abbrev Broker : Type 0
Broker = ℕ × ℕ

-- The clients, and the attempts to connect; the attempt after `silent` others succeeds.
abbrev library : ℕ → Paho Broker
library silent = record {
  create = λ address id w. (true, (suc w.0, w.1));
  set_callbacks = λ w. (true, w);
  connect = λ keepalive name password w. (ltb silent w.1, (w.0, suc w.1));
  subscribe = λ topic qos w. (true, w);
  publish_message = λ topic payload qos w. (true, w);
  wait_for_completion = λ w. w;
  disconnect = λ w. w;
  destroy = λ w. (w.0 - 1, w.1);
  yield = λ w. w;
  is_connected = λ w. true;
}

library-CountsClients : (silent : ℕ) → CountsClients (library silent) (λ w. w.0)
library-CountsClients silent = record {
  created = λ address id w h. refl;
  not_created = λ address id w h. absurd (ground (arith, h));
  destroyed = λ w n h. omega (arith, h);
  set_callbacks = λ w. refl;
  connect = λ keepalive name password w. refl;
  subscribe = λ topic qos w. refl;
  publish_message = λ topic payload qos w. refl;
  wait_for_completion = λ w. refl;
  disconnect = λ w. refl;
  yield = λ w. refl;
}

abbrev no_opens : List ℕ → Bool → Option ℕ
no_opens path block = none

abbrev no_reads : ℕ → List ℕ → ℕ → Option ℕ × List ℕ
no_reads fd buf d = (none, buf)

abbrev no_writes : ℕ → List ℕ → ℕ → Option ℕ × ℕ
no_writes fd bytes d = (none, d)

abbrev echo : Option (Callback (Option Hal))
echo = some (λ user topic payload. ((pos 1, payload), user))

abbrev alone : Option (Callback (Option Hal)) → Wiring (Option Hal) ℕ
alone on_message = record {
  opens = no_opens;
  reads = no_reads;
  writes = no_writes;
  hal_of = λ user. user;
  put_hal = λ hal user. some hal;
  on_message = on_message;
}

abbrev tick : ℕ → Round ℕ
tick now = record { now = now; later = now; devices = 0; stale = []; timestamp = 0 }

abbrev history : List (Event ℕ)
history =
    round (tick 0)
    ∷ round (tick 1000)
    ∷ round (tick 9000)
    ∷ arrived true (codes "/iot/down") (codes "{}")
    ∷ lost
    ∷ round (tick 9100)
    ∷ []

mqtt_thread_main-IsReleased_example :
    IsReleased
      (library 1)
      (λ w. w.0)
      (library-CountsClients 1)
      0
      (alone echo)
      default_config
      (mqtt_thread_main
        (library 1)
        (alone echo)
        default_config
        0
        (record { impl = fresh_impl default_config; user = none; sleeps = []; library = (0, 0) })
        history)
mqtt_thread_main-IsReleased_example =
    mqtt_thread_main-IsReleased (library 1) (λ w. w.0) (library-CountsClients 1) 0 (alone echo)
      default_config 0 none (0, 0) history refl

-- No attempt succeeds.
abbrev dead : Paho Broker
dead = record (library 0) { connect = λ keepalive name password w. (false, w) }

abbrev unconnected : State Broker (Option Hal)
unconnected = record {
  impl = fresh_impl default_config;
  user = none;
  sleeps = [];
  library = (0, 0);
}

abbrev six_ticks : List (Round ℕ)
six_ticks = tick 0 ∷ tick 1 ∷ tick 2 ∷ tick 3 ∷ tick 4 ∷ tick 5 ∷ []

not_connected : unconnected.impl.connected ≡ false
unfolding fresh_impl
not_connected = refl

backoff_settles_example :
    let before = events dead (alone none) default_config unconnected (map round six_ticks) in
    let after = event dead (alone none) default_config before (round (tick 6)) in
    (d : ℕ) × (after.sleeps ≡ d ∷ before.sleeps)
    × (1 ≤ d)
    × (d ≤ 60)
    × ((length six_ticks ≤ 4) ⊎ (d ≡ 32))
backoff_settles_example =
    backoff_settles dead (alone none) default_config (λ keepalive name password w. refl) unconnected
      six_ticks (tick 6) not_connected
