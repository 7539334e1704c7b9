-- ===== src/HubMain.antt =====
-- smart_home_hub/src/main.c: what a message of the broker does, and the order in which the parts of the hub are
-- started and stopped.
pub mod Messages
pub mod Program
mod Tests
use plat.Base.{ℕ, suc, Bool, Option, none, some, List, []}
use plat.Base.Int.{ℤ, pos, negsuc}
use plat.Base.Text.{Text}
use plat.Device.{Hal}
use plat.Rpc.{Hub, Reply, answered, overruns, dispatch}
use plat.Mqtt.{Callback}
use plat.Mqtt.Thread.{Wiring}

-- What one call of the callback finds: the buffers on the stack before they are written, and the system's
-- answers to the media player.
pub record Moment : Type 0 where
  pub stale_method : List ℕ
  pub stale_file : List ℕ
  pub stale_dht : List ℕ
  pub exited : ℕ → Bool
  pub fork : Option ℕ

-- `hub_runtime_t`, as far as the callback goes; `hub` is `none` once a text has been read past the end of its
-- buffer, and `calls` counts the calls.
pub record Runtime (W : Type 0) : Type 0 where
  pub hub : Option (Hub W)
  pub calls : ℕ

-- The size of `response` in `paho_msgarrvd`.
abbrev pub response_size : ℕ
response_size = 512

unfoldable pub hal_part : {W : Type 0} → Runtime W → Option Hal
hal_part rt = elim rt.hub [ none ↦ none | some hub ↦ some hub.hal ]

unfoldable pub with_hal : {W : Type 0} → Hal → Runtime W → Runtime W
with_hal hal rt = elim rt.hub [
  | none ↦ rt
  | some hub ↦ record rt { hub = some (record hub { hal = hal }) }
]

module _ {W : Type 0} (opens : List ℕ → Bool → Option ℕ)
    (reads : ℕ → List ℕ → W → Option ℕ × List ℕ) (writes : ℕ → List ℕ → W → Option ℕ × W)
    (moments : ℕ → Moment) where
  -- A call of `hub_json_rpc_dispatch` returns 0; after an overrun nothing is known.
  unfoldable pub answer_of : Runtime W → Reply W → (ℤ × Text) × Runtime W
  answer_of rt (answered response hub) =
      ((pos 0, response), record rt { hub = some hub; calls = suc rt.calls })
  answer_of rt overruns = ((negsuc 0, []), record rt { hub = none; calls = suc rt.calls })

  unfoldable pub dispatch_in : Runtime W → Text → Option (Hub W) → (ℤ × Text) × Runtime W
  dispatch_in rt payload none = ((negsuc 0, []), rt)
  dispatch_in rt payload (some hub) =
      let m = moments rt.calls in
      answer_of rt (
        dispatch opens reads writes m.exited m.fork response_size m.stale_method m.stale_file
          m.stale_dht hub payload)

  -- `on_mqtt_message`.
  unfoldable pub on_mqtt_message : Callback (Runtime W)
  on_mqtt_message rt topic payload = dispatch_in rt payload rt.hub

  -- The callback and the devices, as `main` gives them to the service.
  unfoldable pub hub_wiring : Wiring (Runtime W) W
  hub_wiring = record {
    opens = opens;
    reads = reads;
    writes = writes;
    hal_of = hal_part;
    put_hal = with_hal;
    on_message = some on_mqtt_message;
  }
