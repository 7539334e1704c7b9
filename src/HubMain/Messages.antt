-- ===== src/HubMain/Messages.antt =====
-- A message of the broker on its way: from the library's callback through the dispatcher to the pin of the LED,
-- and the response back to the broker.
use plat.Base.{
  ℕ, suc, ◌^◌, ◌<◌, ◌≡◌, refl, Bool, true, false, not, ◌&&◌, Option, some, List, [], ◌∷◌, ◌++◌,
  ◌==◌, if◌then◌else◌, length, arith,
}
use plat.Base.Int.{ℤ, pos, int_leb}
use plat.Base.Text.{Text, codes, print_nat, is_digit}
use plat.Base.Text.Decimal.{AllDigits, print_nat-AllDigits}
use plat.Json.{c_string}
use plat.Json.Find.{IsId}
use plat.LedDriver.{Led}
use plat.Device.RoundTrip.{driver_reads, driver_writes}
use plat.HubConfig.{Config}
use plat.Rpc.{Hub, text_of}
use plat.Rpc.Requests.{led_request, done_text, dispatch-led_request}
use plat.Mqtt.{Impl, clamp_qos, message_qos, publish_impl, send_response, answer_message, msgarrvd}
use plat.Mqtt.Library.{Paho}
use plat.Mqtt.Thread.{State, event, arrived}
use plat.HubMain.{Moment, Runtime, answer_of, dispatch_in, on_mqtt_message, hub_wiring}

-- A text without a byte 0.
abbrev pub without_zero : Text → Bool
without_zero [] = true
without_zero (c ∷ s) = not (c == 0) && without_zero s

without_zero-append :
    (s t : Text) → without_zero s ≡ true → without_zero t ≡ true → without_zero (s ++ t) ≡ true
without_zero-append [] t h k = k
without_zero-append (c ∷ s) t h k =
    let rest : without_zero s ≡ true → without_zero (s ++ t) ≡ true =
      λ h'. without_zero-append s t h' k in
    ground (arith, h, rest)

without_zero-digits : (s : Text) → AllDigits s → without_zero s ≡ true
unfolding is_digit
without_zero-digits [] h = refl
without_zero-digits (c ∷ s) (d, h) = let rest = without_zero-digits s h in ground (arith, d, rest)

c_string-terminated : (s : Text) → without_zero s ≡ true → c_string (s ++ 0 ∷ []) ≡ some s
unfolding c_string
c_string-terminated [] h = refl
c_string-terminated (c ∷ s) h =
    let other : (c == 0) ≡ false = ground (arith, h) in
    let later : without_zero s ≡ true = ground (arith, h) in
    rw (c_string, other, c_string-terminated s later) refl

text_of-terminated : (s : Text) → without_zero s ≡ true → text_of (s ++ 0 ∷ []) ≡ s
unfolding text_of
text_of-terminated s h = rw (text_of, c_string-terminated s h) refl

led_request-without_zero :
    (n : ℕ) (id : Text)
    → without_zero id ≡ true
    → without_zero (led_request (print_nat n) id) ≡ true
led_request-without_zero n id h =
    let tail = id ++ codes "}" in
    let params = codes "],\"id\":" ++ tail in
    let ends = without_zero-append id (codes "}") h refl in
    let digits = without_zero-digits (print_nat n) (print_nat-AllDigits n) in
    without_zero-append (codes "{\"jsonrpc\":\"2.0\",\"method\":\"led_control\",\"params\":[")
      (print_nat n ++ params) refl
      (without_zero-append (print_nat n) params digits
        (without_zero-append (codes "],\"id\":") tail refl ends))

-- The hub once its LED has been set.
abbrev pub with_led : Hub Led → ℕ → Hub Led
with_led hub n = record hub { world = record hub.world { level = if n == 0 then 1 else 0 } }

module _ {W : Type 0} (paho : Paho W) (cfg : Config) where
  -- What the library answers to a response, and its state once it has been delivered.
  abbrev pub publish_response : Text → W → Bool × W
  publish_response response w =
      paho.publish_message (text_of cfg.mqtt_topic_resp) response
        (message_qos (pos (clamp_qos cfg.mqtt_qos_response 1))) w

  abbrev pub after_response : Text → W → W
  after_response response w = paho.wait_for_completion (publish_response response w).1

  publish_impl-delivers :
      (topic payload : Text) (qos : ℤ) (impl : Impl) (w : W)
      → impl.connected ≡ true
      → (paho.publish_message topic payload (message_qos qos) w).0 ≡ true
      → publish_impl paho impl topic payload qos w ≡ (
        true,
        impl,
        paho.wait_for_completion (paho.publish_message topic payload (message_qos qos) w).1,
      )
  unfolding publish_impl
  publish_impl-delivers topic payload qos impl w connected sent = rw (connected, sent) refl

  send_response-published :
      (id : Text) (impl : Impl) (w : W)
      → impl.connected ≡ true
      → (publish_response (done_text id) w).0 ≡ true
      → send_response paho cfg impl (pos 0, done_text id) w
        ≡ (impl, after_response (done_text id) w)
  unfolding send_response int_leb
  send_response-published id impl w connected sent =
      rw
        (publish_impl-delivers (text_of cfg.mqtt_topic_resp) (done_text id)
          (pos (clamp_qos cfg.mqtt_qos_response 1)) impl w connected sent)
        refl

module _ {W : Type 0} (paho : Paho W) (cfg : Config) (opens : List ℕ → Bool → Option ℕ)
    (moments : ℕ → Moment) (fd : ℕ) (hub : Hub Led)
    (open_led : hub.hal.led_handle.fd ≡ some fd) where
  answered-led_request :
      (n : ℕ) (id topic : Text) (rt : Runtime Led)
      → n < 2 ^ 31
      → IsId id
      → length (moments rt.calls).stale_method ≡ 64
      → rt.hub ≡ some hub
      → on_mqtt_message opens driver_reads driver_writes moments rt topic
          (led_request (print_nat n) id)
        ≡ ((pos 0, done_text id), record { hub = some (with_led hub n); calls = suc rt.calls })
  unfolding on_mqtt_message dispatch_in answer_of
  answered-led_request n id topic rt small i sized there =
      let m = moments rt.calls in
      rw
        (
          there,
          dispatch-led_request opens m.exited m.fork 512 fd hub open_led n id m.stale_method
              m.stale_file m.stale_dht small i sized (omega (arith, i.short)),
        )
        refl

  -- A message whose payload is the request
  -- `{"jsonrpc":"2.0","method":"led_control","params":[n],"id":i}`, with a number below 2 ^ 31 and an id of at
  -- most 63 bytes without commas, braces, spaces and zeros, that arrives while there is a connection at a hub
  -- whose LED is open: its copy is allocated, and the library accepts the response. Then the pin is low just
  -- if n is not 0, nothing else of the hub changes, and what the library has been given, and has delivered,
  -- is the result 0 with the request's id, on the topic and with the QoS of the configuration.
  pub message-switches_led :
      (n : ℕ) (id topic : Text) (st : State W (Runtime Led))
      → n < 2 ^ 31
      → IsId id
      → without_zero id ≡ true
      → length (moments st.user.calls).stale_method ≡ 64
      → st.user.hub ≡ some hub
      → st.impl.connected ≡ true
      → (publish_response paho cfg (done_text id) st.library).0 ≡ true
      → event paho
          (hub_wiring opens driver_reads driver_writes moments)
          cfg
          st
          (arrived true topic (led_request (print_nat n) id))
        ≡ record st {
          user = record { hub = some (with_led hub n); calls = suc st.user.calls };
          library = after_response paho cfg (done_text id) st.library;
        }
  unfolding event msgarrvd hub_wiring answer_message
  message-switches_led n id topic st small i plain sized there connected sent =
      rw
        (
          text_of-terminated (led_request (print_nat n) id) (led_request-without_zero n id plain),
          answered-led_request n id topic st.user small i sized there,
          send_response-published paho cfg id st.impl st.library connected sent,
        )
        refl
