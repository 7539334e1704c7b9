-- ===== src/Mqtt/Clients.antt =====
-- mqtt_service.c gives every client of the MQTT library back.
use plat.Base.{
  ℕ, suc, ◌≡◌, refl, ap, ◌∙◌, Bool, true, false, not, Option, none, some, List, [], ◌∷◌,
  if◌then◌else◌, ◌⊎◌, inl, inr, arith, if_both,
}
use plat.Base.Int.{ℤ, pos, int_leb}
use plat.Base.Text.{Text}
use plat.HubConfig.{Config}
use plat.Mqtt.{
  Impl, Callback, message_qos, publish_impl, connlost, send_response, answer_message, msgarrvd,
  prepare_client, connect_client, connect_once, address, credential, clamp_qos, is_due,
}
use plat.Rpc.{text_of}
use plat.Mqtt.Library.{Paho, CountsClients}
use plat.Mqtt.Thread.{
  Wiring, State, Round, Event, round, lost, arrived, publish_sensor_report, report, reconnect, keep,
  thread_round, event, events, leave, mqtt_thread_main, fresh_impl,
}

module _ {W : Type 0} (paho : Paho W) (clients : W → ℕ) (laws : CountsClients paho clients)
    (n : ℕ) where
  -- Beyond `n`, the library has one client just if the service has created it; without a client there is
  -- no connection.
  abbrev pub IsHeld : Impl → W → Type 0
  IsHeld impl w =
      ((impl.client_created ≡ true) × (clients w ≡ suc n))
      ⊎ ((impl.client_created ≡ false) × (impl.connected ≡ false) × (clients w ≡ n))

  -- The same of a result, for which `ok` says more.
  IsHeld-same : (impl : Impl) (w w' : W) → clients w' ≡ clients w → IsHeld impl w → IsHeld impl w'
  IsHeld-same impl w w' e (inl (c, h)) = inl (c, e ∙ h)
  IsHeld-same impl w w' e (inr (c, d, h)) = inr (c, d, e ∙ h)

  connlost-IsHeld : (impl : Impl) (w : W) → IsHeld impl w → IsHeld (connlost impl) w
  unfolding connlost
  connlost-IsHeld impl w (inl h) = inl h
  connlost-IsHeld impl w (inr (c, d, h)) = inr (c, refl, h)

  publish_impl-IsHeld :
      (impl : Impl) (topic payload : Text) (qos : ℤ) (w : W)
      → IsHeld impl w
      → let (ok, impl', w') = publish_impl paho impl topic payload qos w in IsHeld impl' w'
  unfolding publish_impl connlost
  publish_impl-IsHeld impl topic payload qos w h =
      let sent = paho.publish_message topic payload (message_qos qos) w in
      let kept = laws.publish_message topic payload (message_qos qos) w in
      if_both (λ (r : Bool × Impl × W). IsHeld r.1 r.2) (not impl.connected) _ _ (λ e. h)
        (λ e.
          if_both (λ (r : Bool × Impl × W). IsHeld r.1 r.2) sent.0 _ _
            (λ e'.
              IsHeld-same impl w (paho.wait_for_completion sent.1)
                (laws.wait_for_completion sent.1 ∙ kept) h)
            (λ e'. connlost-IsHeld impl sent.1 (IsHeld-same impl w sent.1 kept h)))

  send_response-IsHeld :
      (cfg : Config) (impl : Impl) (answer : ℤ × Text) (w : W)
      → IsHeld impl w
      → let (impl', w') = send_response paho cfg impl answer w in IsHeld impl' w'
  unfolding send_response
  send_response-IsHeld cfg impl (response_len, []) w h = h
  send_response-IsHeld cfg impl (response_len, c ∷ response) w h =
      if_both (λ (r : Impl × W). IsHeld r.0 r.1) (int_leb (pos 0) response_len) _ _
        (λ e. publish_impl-IsHeld impl _ (c ∷ response) _ w h) (λ e. h)

  msgarrvd-IsHeld :
      {U : Type 0} (cfg : Config) (cb : Option (Callback U)) (allocated : Bool) (topic : Text)
      (payload : List ℕ) (user : U) (impl : Impl) (w : W)
      → IsHeld impl w
      → let (user', impl', w') = msgarrvd paho cfg cb allocated topic payload user impl w in
        IsHeld impl' w'
  unfolding msgarrvd answer_message
  msgarrvd-IsHeld cfg none allocated topic payload user impl w h = h
  msgarrvd-IsHeld {U} cfg (some cb) allocated topic payload user impl w h =
      if_both (λ (r : U × Impl × W). IsHeld r.1 r.2) allocated _ _
        (λ e. send_response-IsHeld cfg impl _ w h) (λ e. h)

  -- A client that is ready has been created.
  abbrev IsReady : Bool × Impl × W → Type 0
  IsReady (ok, impl, w) =
      IsHeld impl w × (ok ≡ true → (impl.client_created ≡ true) × (clients w ≡ suc n))

  IsReady-false : (impl : Impl) (w : W) → IsHeld impl w → IsReady (false, impl, w)
  IsReady-false impl w h = (h, λ e. absurd (ground arith))

  without :
      (impl : Impl) (w : W)
      → impl.client_created ≡ false
      → IsHeld impl w
      → (impl.connected ≡ false) × (clients w ≡ n)
  without impl w e (inl (c, h)) = absurd (ground (arith, e, c))
  without impl w e (inr (c, d, h)) = (d, h)

  created_before :
      (impl : Impl) (w : W) → impl.client_created ≡ true → IsHeld impl w → clients w ≡ suc n
  created_before impl w e (inl (c, h)) = h
  created_before impl w e (inr (c, d, h)) = absurd (ground (arith, e, c))

  prepare_client-IsReady :
      (cfg : Config) (impl : Impl) (w : W)
      → IsHeld impl w
      → IsReady (prepare_client paho cfg impl w)
  unfolding prepare_client
  prepare_client-IsReady cfg impl w h =
      let made = paho.create (address cfg) (text_of cfg.mqtt_client_id) w in
      let set = paho.set_callbacks made.1 in
      if_both IsReady impl.client_created _ _ (λ e. (h, λ ok. (e, created_before impl w e h)))
        (λ e.
          let (d, k) = without impl w e h in
          if_both IsReady (not made.0) _ _
            (λ f.
              IsReady-false impl made.1
                (inr (e, d, laws.not_created _ _ w (ground (arith, f)) ∙ k)))
            (λ f.
              let one : clients set.1 ≡ suc n =
                laws.set_callbacks made.1 ∙ laws.created _ _ w (ground (arith, f)) ∙ ap suc k in
              if_both IsReady (not set.0) _ _
                (λ g.
                  IsReady-false impl (paho.destroy set.1) (inr (e, d, laws.destroyed set.1 n one)))
                (λ g. (inl (refl, one), λ ok. (refl, one)))))

  connect_client-IsHeld :
      (cfg : Config) (impl : Impl) (w : W)
      → (impl.client_created ≡ true) × (clients w ≡ suc n)
      → let (ok, impl', w') = connect_client paho cfg impl w in IsHeld impl' w'
  unfolding connect_client
  connect_client-IsHeld cfg impl w (c, h) =
      let reached =
        paho.connect cfg.mqtt_keepalive_sec (credential cfg.mqtt_username)
          (credential cfg.mqtt_password) w in
      let subscribed =
        paho.subscribe (text_of cfg.mqtt_topic_down) (clamp_qos cfg.mqtt_qos_control 1) reached.1 in
      let one : clients reached.1 ≡ suc n = laws.connect _ _ _ w ∙ h in
      let two : clients subscribed.1 ≡ suc n = laws.subscribe _ _ reached.1 ∙ one in
      if_both (λ (r : Bool × Impl × W). IsHeld r.1 r.2) (not reached.0) _ _ (λ e. inl (c, one))
        (λ e.
          if_both (λ (r : Bool × Impl × W). IsHeld r.1 r.2) (not subscribed.0) _ _
            (λ f. inl (c, laws.disconnect subscribed.1 ∙ two)) (λ f. inl (c, two)))

  connect_once-IsHeld :
      (cfg : Config) (impl : Impl) (w : W)
      → IsHeld impl w
      → let (ok, impl', w') = connect_once paho cfg impl w in IsHeld impl' w'
  unfolding connect_once
  connect_once-IsHeld cfg impl w h =
      let (held, ready) = prepare_client-IsReady cfg impl w h in
      if_both (λ (r : Bool × Impl × W). IsHeld r.1 r.2) (prepare_client paho cfg impl w).0 _ _
        (λ e. connect_client-IsHeld cfg _ _ (ready e)) (λ e. held)

  abbrev pub IsKept : {U : Type 0} → State W U → Type 0
  IsKept st = IsHeld st.impl st.library

  module _ {U D : Type 0} (wiring : Wiring U D) (cfg : Config) where
    publish_sensor_report-IsKept :
        (r : Round D) (st : State W U)
        → IsKept st
        → IsKept (publish_sensor_report paho wiring cfg r st)
    unfolding publish_sensor_report
    publish_sensor_report-IsKept r st h = publish_impl-IsHeld st.impl _ _ _ st.library h

    report-IsKept :
        (r : Round D) (st : State W U) → IsKept st → IsKept (report paho wiring cfg r st)
    unfolding report
    report-IsKept r st h =
        if_both IsKept (is_due cfg st.impl.last_report_ms r.now) _ _
          (λ e. publish_sensor_report-IsKept r st h) (λ e. h)

    reconnect-IsKept : (st : State W U) → IsKept st → IsKept (reconnect paho wiring cfg st).1
    unfolding reconnect
    reconnect-IsKept st h =
        let held = connect_once-IsHeld cfg st.impl st.library h in
        if_both (λ (r : Bool × State W U). IsKept r.1) (connect_once paho cfg st.impl st.library).0
          _ _ (λ e. held) (λ e. held)

    keep-IsKept : (st : State W U) → IsKept st → IsKept (keep paho wiring cfg st).1
    unfolding keep connlost
    keep-IsKept st h =
        let kept =
          IsHeld-same st.impl st.library (paho.yield st.library) (laws.yield st.library) h in
        if_both (λ (r : Bool × State W U). IsKept r.1) (paho.is_connected (paho.yield st.library)) _
          _ (λ e. kept) (λ e. connlost-IsHeld st.impl (paho.yield st.library) kept)

    finish-IsKept :
        (r : Round D) (s : Bool × State W U)
        → IsKept s.1
        → IsKept (if s.0 then report paho wiring cfg r s.1 else s.1)
    finish-IsKept r s h = if_both IsKept s.0 _ _ (λ e. report-IsKept r s.1 h) (λ e. h)

    thread_round-IsKept :
        (r : Round D) (st : State W U) → IsKept st → IsKept (thread_round paho wiring cfg r st)
    unfolding thread_round
    thread_round-IsKept r st h = finish-IsKept r _ (
        if_both (λ (s : Bool × State W U). IsKept s.1) st.impl.connected _ _ (λ e. keep-IsKept st h)
          (λ e. reconnect-IsKept st h))

    event-IsKept : (st : State W U) (e : Event D) → IsKept st → IsKept (event paho wiring cfg st e)
    unfolding event
    event-IsKept st (round r) h = thread_round-IsKept r st h
    event-IsKept st lost h = connlost-IsHeld st.impl st.library h
    event-IsKept st (arrived allocated topic payload) h =
        msgarrvd-IsHeld cfg wiring.on_message allocated topic payload st.user st.impl st.library h

    events-IsKept :
        (st : State W U) (es : List (Event D)) → IsKept st → IsKept (events paho wiring cfg st es)
    unfolding events
    events-IsKept st [] h = h
    events-IsKept st (e ∷ es) h =
        events-IsKept (event paho wiring cfg st e) es (event-IsKept st e h)

    abbrev pub IsReleased : State W U → Type 0
    IsReleased st =
        (st.impl.client_created ≡ false) × (st.impl.connected ≡ false) × (clients st.library ≡ n)

    leave-IsReleased : (st : State W U) → IsKept st → IsReleased (leave paho wiring cfg st)
    unfolding leave
    leave-IsReleased st (inl (c, h)) =
        let shut : W = if st.impl.connected then paho.disconnect st.library else st.library in
        let one : clients shut ≡ suc n =
          if_both (λ w. clients w ≡ suc n) st.impl.connected _ _
            (λ e. laws.disconnect st.library ∙ h) (λ e. h) in
        rw c (refl, refl, laws.destroyed shut n one)
    leave-IsReleased st (inr (c, d, h)) = rw c (refl, d, h)

    fresh-IsHeld :
        (now : ℕ) (w : W)
        → clients w ≡ n
        → IsHeld (record (fresh_impl cfg) { last_report_ms = now }) w
    unfolding fresh_impl
    fresh-IsHeld now w h = inr (refl, refl, h)

    -- From the state that a start leaves, whatever calls of the library fail, and whenever it reports a
    -- lost connection or a message between the rounds: when the thread ends, it is not connected, and the
    -- library has as many clients as before, if it counts its clients as documented.
    pub mqtt_thread_main-IsReleased :
        (now : ℕ) (user : U) (w : W) (es : List (Event D))
        → clients w ≡ n
        → IsReleased (
            mqtt_thread_main paho wiring cfg now
              (record { impl = fresh_impl cfg; user = user; sleeps = []; library = w })
              es)
    unfolding mqtt_thread_main
    mqtt_thread_main-IsReleased now user w es h =
        leave-IsReleased _ (events-IsKept _ es (fresh-IsHeld now w h))
