-- ===== src/Mqtt/Backoff.antt =====
-- The delays of mqtt_service.c between attempts to reach a broker that cannot be reached.
pub mod Delays
use plat.Base.{
  ℕ, zero, suc, ◌+◌, ◌*◌, ◌≤◌, ◌≡◌, refl, ap, ◌∙◌, Bool, false, not, Option, List, [], ◌∷◌, map,
  if◌then◌else◌, ltb, length, ◌⊎◌, inl, inr, arith, if_both, Bool-cases,
}
use plat.Base.Int.{ℤ, pos, negsuc}
use plat.Base.Text.{Text}
use plat.HubConfig.{Config}
use plat.Mqtt.{
  Impl, Callback, retry_delay, next_backoff, prepare_client, connect_client, connect_once, address,
  credential,
}
use plat.Rpc.{text_of}
use plat.Mqtt.Library.{Paho}
use plat.Mqtt.Thread.{
  Wiring, State, Round, round, reconnect, keep, thread_round, report, event, events,
}
use plat.Mqtt.Backoff.Delays.{retry_delay-range, Stage, next-Stage, Stage-end}

module _ {W U D : Type 0} (paho : Paho W) (wiring : Wiring U D) (cfg : Config)
    (unreachable : (keepalive : ℤ) (name password : Option Text) (w : W)
      → (paho.connect keepalive name password w).0 ≡ false) where
  -- A failure, which changes neither whether there is a connection nor the delay.
  abbrev IsFailed : Impl → Bool × Impl × W → Type 0
  IsFailed impl (ok, impl', w') =
      (ok ≡ false)
      × (impl'.connected ≡ impl.connected)
      × (impl'.reconnect_backoff ≡ impl.reconnect_backoff)

  connect_client-IsFailed : (impl : Impl) (w : W) → IsFailed impl (connect_client paho cfg impl w)
  unfolding connect_client
  connect_client-IsFailed impl w =
      rw
        (unreachable cfg.mqtt_keepalive_sec (credential cfg.mqtt_username)
          (credential cfg.mqtt_password) w)
        (refl, refl, refl)

  -- Making a client changes neither of the two.
  abbrev IsUnchanged : Impl → Bool × Impl × W → Type 0
  IsUnchanged impl (ok, impl', w') =
      (impl'.connected ≡ impl.connected) × (impl'.reconnect_backoff ≡ impl.reconnect_backoff)

  prepare_client-IsUnchanged :
      (impl : Impl) (w : W) → IsUnchanged impl (prepare_client paho cfg impl w)
  unfolding prepare_client
  prepare_client-IsUnchanged impl w =
      let made = paho.create (address cfg) (text_of cfg.mqtt_client_id) w in
      if_both (IsUnchanged impl) impl.client_created _ _ (λ e. (refl, refl))
        (λ e.
          if_both (IsUnchanged impl) (not made.0) _ _ (λ f. (refl, refl))
            (λ f.
              if_both (IsUnchanged impl) (not (paho.set_callbacks made.1).0) _ _ (λ g. (refl, refl))
                (λ g. (refl, refl))))

  connect_once-IsFailed : (impl : Impl) (w : W) → IsFailed impl (connect_once paho cfg impl w)
  unfolding connect_once
  connect_once-IsFailed impl w =
      let (ready, impl', w') = prepare_client paho cfg impl w in
      let (c, b) = prepare_client-IsUnchanged impl w in
      if_both (IsFailed impl) ready _ _
        (λ e. let (o, c', b') = connect_client-IsFailed impl' w' in (o, c' ∙ c, b' ∙ b))
        (λ e. (refl, c, b))

  -- A round without a connection: the next state.
  abbrev IsWaited : State W U → State W U → Type 0
  IsWaited st st' =
      (st'.impl.connected ≡ false)
      × (st'.impl.reconnect_backoff ≡ next_backoff (retry_delay st.impl.reconnect_backoff))
      × (st'.sleeps ≡ retry_delay st.impl.reconnect_backoff ∷ st.sleeps)

  reconnect-IsWaited :
      (st : State W U)
      → st.impl.connected ≡ false
      → let (goes_on, st') = reconnect paho wiring cfg st in (goes_on ≡ false) × IsWaited st st'
  unfolding reconnect
  reconnect-IsWaited st off =
      let (failed, c, b) = connect_once-IsFailed st.impl st.library in
      let same = ap retry_delay b in
      if_both (λ (r : Bool × State W U). (r.0 ≡ false) × IsWaited st r.1)
        (connect_once paho cfg st.impl st.library).0 _ _ (λ e. absurd (ground (arith, e, failed)))
        (λ e. (refl, (c ∙ off, ap next_backoff same, ap (λ d. d ∷ st.sleeps) same)))

  thread_round-IsWaited :
      (r : Round D) (st : State W U)
      → st.impl.connected ≡ false
      → IsWaited st (thread_round paho wiring cfg r st)
  unfolding thread_round
  thread_round-IsWaited r st off =
      let (ends, waited) = reconnect-IsWaited st off in
      if_both
        (λ (s : Bool × State W U). IsWaited st (if s.0 then report paho wiring cfg r s.1 else s.1))
        st.impl.connected (keep paho wiring cfg st) (reconnect paho wiring cfg st)
        (λ e. absurd (ground (arith, e, off)))
        (λ e.
          if_both (IsWaited st) (reconnect paho wiring cfg st).0 _ _
            (λ f. absurd (ground (arith, f, ends))) (λ f. waited))

  -- After some failures.
  abbrev IsStage : ℕ → ℕ → State W U → Type 0
  IsStage k e st = (st.impl.connected ≡ false) × Stage k e (retry_delay st.impl.reconnect_backoff)

  abbrev step : State W U → Round D → State W U
  step st r = event paho wiring cfg st (round r)

  step-IsStage :
      (k e : ℕ) (st : State W U) (r : Round D)
      → 1 ≤ e
      → IsStage k e st
      → IsStage (suc k) e (step st r)
  unfolding event
  step-IsStage k e st r one (off, stage) =
      let (off', delay, slept) = thread_round-IsWaited r st off in
      (
        off',
        rw delay (
            next-Stage k e (retry_delay st.impl.reconnect_backoff) one (retry_delay-range _) stage),
      )

  rounds-IsStage :
      (k e n : ℕ) (st : State W U) (rs : List (Round D))
      → 1 ≤ e
      → n ≡ k + length rs
      → IsStage k e st
      → IsStage n e (events paho wiring cfg st (map round rs))
  unfolding events
  rounds-IsStage k e n st [] one sum h = let same : n ≡ k = omega arith in rw same h
  rounds-IsStage k e n st (r ∷ rs) one sum h =
      rounds-IsStage (suc k) e n (step st r) rs one (omega arith) (step-IsStage k e st r one h)

  -- While the broker cannot be reached, each round of the thread of a service without a connection sleeps
  -- once, for 1 to 60 seconds; after five such rounds it sleeps for 32 seconds, whatever the delay that
  -- is configured.
  pub backoff_settles :
      (st : State W U) (rs : List (Round D)) (r : Round D)
      → st.impl.connected ≡ false
      → let before = events paho wiring cfg st (map round rs) in
        let after = event paho wiring cfg before (round r) in
        (d : ℕ) × (after.sleeps ≡ d ∷ before.sleeps)
        × (1 ≤ d)
        × (d ≤ 60)
        × ((length rs ≤ 4) ⊎ (d ≡ 32))
  unfolding event
  backoff_settles st rs r off =
      let first = retry_delay st.impl.reconnect_backoff in
      let (low, high) = retry_delay-range st.impl.reconnect_backoff in
      let before = events paho wiring cfg st (map round rs) in
      let (off', stage) =
        rounds-IsStage 0 first (length rs) st rs low (omega arith) (off, inr (inr refl)) in
      let (off'', delay, slept) = thread_round-IsWaited r before off' in
      let (low', high') = retry_delay-range before.impl.reconnect_backoff in
      (
        retry_delay before.impl.reconnect_backoff,
        slept,
        low',
        high',
        Stage-end (length rs) first (retry_delay before.impl.reconnect_backoff) stage,
      )
