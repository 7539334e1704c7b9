-- ===== src/Mqtt.antt =====
-- smart_home_hub/src/mqtt/mqtt_service.c, built with HUB_USE_PAHO. The MQTT client library is third-party:
-- Paho (Library) has its calls, as functions of the library's state `W`. The library's callbacks run between the
-- rounds of the service's thread. Null services, configurations and messages are not modelled.
pub mod Library
pub mod Thread
pub mod Clients
pub mod Backoff
mod Tests
use plat.Base.{
  ℕ, ◌+◌, ◌-◌, ◌*◌, ◌%◌, ◌^◌, Bool, true, false, not, Option, none, some, List, [], ◌∷◌, ◌++◌, ltb,
  leb, ◌==◌, if◌then◌else◌, take,
}
use plat.Base.Int.{ℤ, pos, negsuc, int_leb}
use plat.Base.Text.{Text, codes, print_nat, print_int, to_int}
use plat.HubConfig.{Config}
use plat.Rpc.{text_of}
use plat.Mqtt.Library.{Paho}

-- `hub_mqtt_impl_t`.
pub record Impl : Type 0 where
  pub client_created : Bool
  pub connected : Bool
  pub reconnect_backoff : ℤ
  pub last_report_ms : ℕ

-- The callback for a message, on the state `U` behind it: the topic and the payload give its result, the text
-- that it leaves in the response buffer, and the state.
abbrev pub Callback : Type 0 → Type 0
Callback U = U → Text → Text → (ℤ × Text) × U

-- `clamp_qos`.
unfoldable pub clamp_qos : ℤ → ℕ → ℕ
clamp_qos (pos n) fallback = if leb n 2 then n else fallback
clamp_qos (negsuc n) fallback = fallback

-- The QoS of a message that is published.
unfoldable pub message_qos : ℤ → ℕ
message_qos (pos n) = if ltb 2 n then 2 else n
message_qos (negsuc n) = 0

-- snprintf into a buffer of 256 bytes.
unfoldable pub text256 : Text → Text
text256 s = take 255 s

unfoldable pub address : Config → Text
address cfg =
    text256 (codes "tcp://" ++ text_of cfg.mqtt_host ++ codes ":" ++ print_int cfg.mqtt_port)

unfoldable pub report_payload : ℕ → ℕ → ℕ → Text
report_payload humi temp timestamp = text256 (
    codes "{\"method\":\"report\",\"params\":{\"temp_value\":"
    ++ print_nat temp
    ++ codes ",\"humi_value\":"
    ++ print_nat humi
    ++ codes "},\"timestamp\":"
    ++ print_nat timestamp
    ++ codes "}")

-- A user name or a password, if there is one.
unfoldable pub credential : List ℕ → Option Text
credential [] = none
credential (c ∷ buf) = if c == 0 then none else some (text_of (c ∷ buf))

-- The delay after a failure, and the delay that is kept for the next one.
unfoldable pub retry_delay : ℤ → ℕ
retry_delay (pos n) = if n == 0 then 1 else if ltb 60 n then 60 else n
retry_delay (negsuc n) = 1

unfoldable pub next_backoff : ℕ → ℤ
next_backoff delay = pos (if ltb delay 32 then delay * 2 else 32)

unfoldable pub first_backoff : Config → ℤ
first_backoff cfg = elim cfg.mqtt_reconnect_sec [
  | pos n ↦ if n == 0 then pos 1 else pos n
  | negsuc n ↦ pos 1
]

-- The time between two reports, an int.
unfoldable pub report_ms : Config → ℤ
report_ms cfg = elim cfg.report_interval_sec [
  | pos n ↦ if n == 0 then pos 5000 else to_int (pos (n * 1000))
  | negsuc n ↦ pos 5000
]

-- Clocks are uint64_t values; the difference is converted to int.
unfoldable pub is_due : Config → ℕ → ℕ → Bool
is_due cfg last now = int_leb (report_ms cfg) (to_int (pos ((now + 2 ^ 64 - last) % 2 ^ 64)))

-- `paho_connlost`.
unfoldable pub connlost : Impl → Impl
connlost impl = record impl { connected = false }

module _ {W : Type 0} (paho : Paho W) where
  -- `hub_mqtt_service_publish` on a service that is started: whether it returns 0.
  unfoldable pub publish_impl : Impl → Text → Text → ℤ → W → Bool × Impl × W
  publish_impl impl topic payload qos w =
      let (ok, w') = paho.publish_message topic payload (message_qos qos) w in
      if not impl.connected
      then (false, impl, w)
      else if ok
      then (true, impl, paho.wait_for_completion w')
      else (false, record impl { connected = false }, w')

  unfoldable pub publish : Option Impl → Text → Text → ℤ → W → Bool × Option Impl × W
  publish none topic payload qos w = (false, none, w)
  publish (some impl) topic payload qos w =
      let (ok, impl', w') = publish_impl impl topic payload qos w in (ok, some impl', w')

  unfoldable pub send_response : Config → Impl → ℤ × Text → W → Impl × W
  send_response cfg impl (response_len, []) w = (impl, w)
  send_response cfg impl (response_len, c ∷ response) w =
      let (ok, impl', w') =
        publish_impl impl (text_of cfg.mqtt_topic_resp) (c ∷ response)
          (pos (clamp_qos cfg.mqtt_qos_response 1)) w in
      if int_leb (pos 0) response_len then (impl', w') else (impl, w)

  -- The callback's result, and what is made of it.
  unfoldable pub answer_message : {U : Type 0} → Config → (ℤ × Text) × U → Impl → W → U × Impl × W
  answer_message cfg (answer, user) impl w =
      let (impl', w') = send_response cfg impl answer w in (user, impl', w')

  -- `paho_msgarrvd`; `allocated` is whether calloc gives the buffer for the payload. A null topic is the
  -- empty text.
  unfoldable pub msgarrvd :
      {U : Type 0}
      → Config
      → Option (Callback U)
      → Bool
      → Text
      → List ℕ
      → U
      → Impl
      → W
      → U × Impl × W
  msgarrvd cfg none allocated topic payload user impl w = (user, impl, w)
  msgarrvd cfg (some on_message) allocated topic payload user impl w =
      let answer =
        answer_message cfg (on_message user topic (text_of (payload ++ 0 ∷ []))) impl w in
      if allocated then answer else (user, impl, w)

  -- `paho_prepare_client`.
  unfoldable pub prepare_client : Config → Impl → W → Bool × Impl × W
  prepare_client cfg impl w =
      let (made, w1) = paho.create (address cfg) (text_of cfg.mqtt_client_id) w in
      let (set, w2) = paho.set_callbacks w1 in
      if impl.client_created
      then (true, impl, w)
      else if not made
      then (false, impl, w1)
      else if not set
      then (false, impl, paho.destroy w2)
      else (true, record impl { client_created = true }, w2)

  -- The calls of `paho_connect_once` once there is a client.
  unfoldable pub connect_client : Config → Impl → W → Bool × Impl × W
  connect_client cfg impl w =
      let (reached, w1) =
        paho.connect cfg.mqtt_keepalive_sec (credential cfg.mqtt_username)
          (credential cfg.mqtt_password) w in
      let (subscribed, w2) =
        paho.subscribe (text_of cfg.mqtt_topic_down) (clamp_qos cfg.mqtt_qos_control 1) w1 in
      if not reached
      then (false, impl, w1)
      else if not subscribed
      then (false, impl, paho.disconnect w2)
      else (true, record impl { connected = true }, w2)

  -- `paho_connect_once`.
  unfoldable pub connect_once : Config → Impl → W → Bool × Impl × W
  connect_once cfg impl w =
      let (ready, impl', w') = prepare_client cfg impl w in
      if ready then connect_client cfg impl' w' else (false, impl', w')
