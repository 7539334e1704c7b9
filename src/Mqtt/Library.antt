-- ===== src/Mqtt/Library.antt =====
-- The MQTT client library that smart_home_hub/src/mqtt/mqtt_service.c calls. A call that can fail gives
-- whether it returns MQTTCLIENT_SUCCESS; the service has one client, whose handle is part of the state.
use plat.Base.{ℕ, suc, ◌≡◌, Bool, true, false, Option}
use plat.Base.Int.{ℤ}
use plat.Base.Text.{Text}

pub record Paho (W : Type 0) : Type 0 where
  pub create : Text → Text → W → Bool × W
  pub set_callbacks : W → Bool × W
  pub connect : ℤ → Option Text → Option Text → W → Bool × W
  pub subscribe : Text → ℕ → W → Bool × W
  pub publish_message : Text → Text → ℕ → W → Bool × W
  pub wait_for_completion : W → W
  pub disconnect : W → W
  pub destroy : W → W
  pub yield : W → W
  pub is_connected : W → Bool

-- What the library documents of its clients: create gives one more just if it succeeds, destroy takes one
-- away, and no other call changes their number.
pub record CountsClients {W : Type 0} (paho : Paho W) (clients : W → ℕ) : Type 0 where
  pub created :
      (address id : Text) (w : W)
      → (paho.create address id w).0 ≡ true
      → clients (paho.create address id w).1 ≡ suc (clients w)
  pub not_created :
      (address id : Text) (w : W)
      → (paho.create address id w).0 ≡ false
      → clients (paho.create address id w).1 ≡ clients w
  pub destroyed : (w : W) (n : ℕ) → clients w ≡ suc n → clients (paho.destroy w) ≡ n
  pub set_callbacks : (w : W) → clients (paho.set_callbacks w).1 ≡ clients w
  pub connect :
      (keepalive : ℤ) (name password : Option Text) (w : W)
      → clients (paho.connect keepalive name password w).1 ≡ clients w
  pub subscribe :
      (topic : Text) (qos : ℕ) (w : W) → clients (paho.subscribe topic qos w).1 ≡ clients w
  pub publish_message :
      (topic payload : Text) (qos : ℕ) (w : W)
      → clients (paho.publish_message topic payload qos w).1 ≡ clients w
  pub wait_for_completion : (w : W) → clients (paho.wait_for_completion w) ≡ clients w
  pub disconnect : (w : W) → clients (paho.disconnect w) ≡ clients w
  pub yield : (w : W) → clients (paho.yield w) ≡ clients w
