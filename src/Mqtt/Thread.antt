-- ===== src/Mqtt/Thread.antt =====
-- smart_home_hub/src/mqtt/mqtt_service.c: the service's thread, its start and its stop.
use plat.Base.{ℕ, Bool, true, false, Option, none, some, List, [], ◌∷◌, if◌then◌else◌}
use plat.Base.Int.{pos}
use plat.Base.Text.{Text}
use plat.Device.{Hal, dht11_read}
use plat.HubConfig.{Config}
use plat.Rpc.{text_of}
use plat.Mqtt.{
  Impl, Callback, clamp_qos, report_payload, retry_delay, next_backoff, first_backoff, is_due,
  publish_impl, connlost, msgarrvd, connect_once,
}
use plat.Mqtt.Library.{Paho}

-- What a service is started with: the callback, and the devices, both of which belong to the state `U` of the
-- rest of the hub. The calls of the system are those of `Device`.
pub record Wiring (U D : Type 0) : Type 0 where
  pub opens : List ℕ → Bool → Option ℕ
  pub reads : ℕ → List ℕ → D → Option ℕ × List ℕ
  pub writes : ℕ → List ℕ → D → Option ℕ × D
  pub hal_of : U → Option Hal
  pub put_hal : Hal → U → U
  pub on_message : Option (Callback U)

-- What the thread works on: the service's state, that of the rest of the hub, the sleeps after failures (the
-- last one first, in seconds), and the library's state.
pub record State (W U : Type 0) : Type 0 where
  pub impl : Impl
  pub user : U
  pub sleeps : List ℕ
  pub library : W

-- What a round finds: the two readings of the clock, in milliseconds, the state of the devices, the
-- sensor's buffer before it is written, and the time of day.
pub record Round (D : Type 0) : Type 0 where
  pub now : ℕ
  pub later : ℕ
  pub devices : D
  pub stale : List ℕ
  pub timestamp : ℕ

-- A round of the thread, or a callback of the library: for a lost connection, or for a message with its
-- topic and payload, of which `allocated` says whether its copy is allocated.
pub data Event (D : Type 0) : Type 0 where
  round : Round D → Event D
  lost : Event D
  arrived : (allocated : Bool) → Text → List ℕ → Event D

module _ {W U D : Type 0} (paho : Paho W) (wiring : Wiring U D) (cfg : Config) where
  -- Humidity and temperature: both 0 if they are not read.
  unfoldable pub sensor : Round D → U → Option Hal → ℕ × ℕ × U
  sensor r user none = (0, 0, user)
  sensor r user (some hal) =
      let (values, hal') =
        dht11_read wiring.opens wiring.reads wiring.writes hal r.stale r.devices in
      elim values [
        | none ↦ (0, 0, wiring.put_hal hal' user)
        | some (humi, temp) ↦ (humi, temp, wiring.put_hal hal' user)
      ]

  -- `publish_sensor_report`.
  unfoldable pub publish_sensor_report : Round D → State W U → State W U
  publish_sensor_report r st =
      let (humi, temp, user) = sensor r st.user (wiring.hal_of st.user) in
      let (ok, impl, w) =
        publish_impl paho st.impl (text_of cfg.mqtt_topic_up) (report_payload humi temp r.timestamp)
          (pos (clamp_qos cfg.mqtt_qos_report 0)) st.library in
      record st { impl = impl; user = user; library = w }

  -- The end of a round, once there is a connection.
  unfoldable pub report : Round D → State W U → State W U
  report r st =
      let sent = publish_sensor_report r st in
      if is_due cfg st.impl.last_report_ms r.now
      then record sent { impl = record sent.impl { last_report_ms = r.later } }
      else st

  -- A round without a connection: whether it goes on to the report.
  unfoldable pub reconnect : State W U → Bool × State W U
  reconnect st =
      let (ok, impl, w) = connect_once paho cfg st.impl st.library in
      let delay = retry_delay impl.reconnect_backoff in
      if ok
      then (
        true,
        record st { impl = record impl { reconnect_backoff = first_backoff cfg }; library = w },
      )
      else (
        false,
        record st {
          impl = record impl { reconnect_backoff = next_backoff delay };
          sleeps = delay ∷ st.sleeps;
          library = w;
        },
      )

  -- A round with a connection.
  unfoldable pub keep : State W U → Bool × State W U
  keep st =
      let w = paho.yield st.library in
      if paho.is_connected w
      then (true, record st { library = w })
      else (false, record st { impl = record st.impl { connected = false }; library = w })

  unfoldable pub thread_round : Round D → State W U → State W U
  thread_round r st =
      let (goes_on, st') = if st.impl.connected then keep st else reconnect st in
      if goes_on then report r st' else st'

  unfoldable pub event : State W U → Event D → State W U
  event st (round r) = thread_round r st
  event st lost = record st { impl = connlost st.impl }
  event st (arrived allocated topic payload) =
      let (user, impl, w) =
        msgarrvd paho cfg wiring.on_message allocated topic payload st.user st.impl st.library in
      record st { impl = impl; user = user; library = w }

  unfoldable pub events : State W U → List (Event D) → State W U
  events st [] = st
  events st (e ∷ es) = events (event st e) es

  -- What the thread does once it is not to run any more.
  unfoldable pub leave : State W U → State W U
  leave st =
      let w = if st.impl.connected then paho.disconnect st.library else st.library in
      if st.impl.client_created
      then record st {
        impl = record st.impl { client_created = false; connected = false };
        library = paho.destroy w;
      }
      else st

  -- `mqtt_thread_main`: the events are those until `running` is cleared.
  unfoldable pub mqtt_thread_main : ℕ → State W U → List (Event D) → State W U
  mqtt_thread_main now st es =
      leave (events (record st { impl = record st.impl { last_report_ms = now } }) es)

-- `hub_mqtt_service_t`, but for what does not change.
pub record Service : Type 0 where
  pub running : Bool
  pub thread : Bool
  pub impl : Option Impl

-- The state that calloc clears, with the first delay.
unfoldable pub fresh_impl : Config → Impl
fresh_impl cfg = record {
  client_created = false;
  connected = false;
  reconnect_backoff = first_backoff cfg;
  last_report_ms = 0;
}

-- `hub_mqtt_service_start`: `allocated` and `created` are whether calloc and pthread_create succeed.
unfoldable pub service_start : Config → Bool → Bool → Bool × Service
service_start cfg false created = (false, record { running = false; thread = false; impl = none })
service_start cfg true created =
    if created
    then (true, record { running = true; thread = true; impl = some (fresh_impl cfg) })
    else (false, record { running = false; thread = false; impl = none })

-- `hub_mqtt_service_stop`, which waits for the thread.
unfoldable pub service_stop : Service → Service
service_stop svc = elim svc.impl [
  | none ↦ svc
  | some impl ↦ record { running = false; thread = false; impl = none }
]
