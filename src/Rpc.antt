-- ===== src/Rpc.antt =====
-- `hub_json_rpc_dispatch` of smart_home_hub/src/rpc/json_rpc_dispatch.c, on top of the devices and the
-- media player. Null arguments are not modelled.
pub mod Methods
pub mod Requests
mod Tests
use plat.Base.{
  ℕ, zero, suc, ◌+◌, ◌-◌, Bool, true, false, not, Option, none, some, List, [], ◌∷◌, ◌++◌, ◌==◌,
  if◌then◌else◌, take, drop,
}
use plat.Base.Int.{ℤ, pos, negsuc}
use plat.Base.Text.{Text, codes, same_text, print_nat, print_int}
use plat.Json.{
  json_get_string, json_get_id_raw, json_get_int_key, json_get_first_array_int,
  json_get_first_array_string, c_string,
}
use plat.Device.{Hal, led_set, dht11_read}
use plat.MediaPlayer.{Player, Child, player_stop, player_play}

-- The hub behind a call: `W` is the state of its devices.
pub record Hub (W : Type 0) : Type 0 where
  pub hal : Hal
  pub world : W
  pub media : Option Player
  pub children : List Child

-- The result of a call: the text in the response buffer, or a text that is read past the end of its
-- buffer.
pub data Reply (W : Type 0) : Type 0 where
  answered : Text → Hub W → Reply W
  overruns : Reply W

-- The size of the pattern buffer of `json_find_key`.
abbrev pub pattern_size : ℕ
pattern_size = 64

-- snprintf into a buffer of `size` bytes.
unfoldable pub reply_text : ℕ → Text → Text
reply_text size s = take (size - 1) s

-- `make_error`; `code` is the code without its sign.
unfoldable pub make_error : ℕ → Text → ℕ → Text → Text
make_error size id_raw code msg = reply_text size (
    codes "{\"jsonrpc\":\"2.0\",\"error\":{\"code\":-"
    ++ print_nat code
    ++ codes ",\"message\":\""
    ++ msg
    ++ codes "\"},\"id\":"
    ++ id_raw
    ++ codes "}")

unfoldable pub make_result : ℕ → Text → Text → Text
make_result size id_raw result =
    reply_text size (
      codes "{\"jsonrpc\":\"2.0\",\"result\":" ++ result ++ codes ",\"id\":" ++ id_raw ++ codes "}")

-- An int as a condition: 0 just if it is 0.
unfoldable pub flag : ℤ → ℕ
flag (pos n) = n
flag (negsuc n) = suc n

unfoldable pub text_of : List ℕ → Text
text_of buf = elim (c_string buf) [ none ↦ [] | some s ↦ s ]

-- The buffer for the file before the request is read: its first byte is 0.
unfoldable pub cleared : List ℕ → List ℕ
cleared stale = 0 ∷ drop 1 stale

-- The buffer after both places for the file have been looked at.
unfoldable pub media_file : Text → List ℕ → List ℕ
media_file request stale =
    let (ok, out) = json_get_string pattern_size request (codes "file") (cleared stale) in
    let (ok', out') = json_get_first_array_string pattern_size request (codes "params") out in
    if ok then out else out'

-- `media_file[0] ? media_file : NULL`: `none` is a text without an end.
unfoldable pub file_argument : List ℕ → Option (Option Text)
file_argument [] = none
file_argument (c ∷ buf) =
    if c == 0 then some none else elim (c_string (c ∷ buf)) [ none ↦ none | some s ↦ some (some s) ]

-- The devices' calls are those of `Device`; `exited` and `fork` are the system's answers to the media
-- player. The stale lists are what the buffers on the stack hold before the call.
module _ {W : Type 0} (opens : List ℕ → Bool → Option ℕ)
    (reads : ℕ → List ℕ → W → Option ℕ × List ℕ) (writes : ℕ → List ℕ → W → Option ℕ × W)
    (exited : ℕ → Bool) (fork : Option ℕ) (size : ℕ) where
  unfoldable pub set_led : Hub W → ℤ → Bool × Hub W
  set_led hub on =
      let (ok, hal, world) = led_set opens reads writes hub.hal (flag on) hub.world in
      (ok, record hub { hal = hal; world = world })

  -- "led_control".
  unfoldable pub led_control : Hub W → Text → Text → Reply W
  led_control hub request id_raw =
      elim (json_get_first_array_int pattern_size request (codes "params")) [
        | none ↦ answered (make_error size id_raw 32602 (codes "Invalid params")) hub
        | some on ↦
            let (ok, hub') = set_led hub on in
            if ok
            then answered (make_result size id_raw (codes "0")) hub'
            else answered (make_error size id_raw 32001 (codes "LED control failed")) hub'
      ]

  -- "control".
  unfoldable pub control : Hub W → Text → Text → Reply W
  control hub request id_raw = elim (json_get_int_key pattern_size request (codes "LED1")) [
    | none ↦ answered (make_error size id_raw 32602 (codes "Missing LED1")) hub
    | some on ↦
        let (ok, hub') = set_led hub on in
        if ok
        then answered (make_result size id_raw (codes "{\"LED1\":" ++ print_int on ++ codes "}"))
            hub'
        else answered (make_error size id_raw 32001 (codes "LED control failed")) hub'
  ]

  -- "dht11_read".
  unfoldable pub read_sensor : List ℕ → Hub W → Text → Reply W
  read_sensor stale hub id_raw =
      let (values, hal) = dht11_read opens reads writes hub.hal stale hub.world in
      let hub' : Hub W = record hub { hal = hal } in
      elim values [
        | none ↦ answered (make_error size id_raw 32002 (codes "Sensor read failed")) hub'
        | some (humi, temp) ↦
            answered
              (make_result size id_raw
                (codes "[" ++ print_nat humi ++ codes "," ++ print_nat temp ++ codes "]"))
              hub'
      ]

  -- "media_play", once there is a player.
  unfoldable pub play : Hub W → Player → Option (Option Text) → Text → Reply W
  play hub mp none id_raw = overruns
  play hub mp (some file) id_raw =
      let (ok, mp', cs) = player_play exited fork mp file hub.children in
      let hub' : Hub W = record hub { media = some mp'; children = cs } in
      if ok
      then answered (make_result size id_raw (codes "0")) hub'
      else answered (make_error size id_raw 32003 (codes "Media play failed")) hub'

  unfoldable pub media_play : List ℕ → Hub W → Text → Text → Reply W
  media_play stale hub request id_raw = elim hub.media [
    | none ↦ answered (make_error size id_raw 32003 (codes "Media service unavailable")) hub
    | some mp ↦ play hub mp (file_argument (media_file request stale)) id_raw
  ]

  -- "media_stop"; stopping a player that is there returns 0.
  unfoldable pub media_stop : Hub W → Text → Reply W
  media_stop hub id_raw = elim hub.media [
    | none ↦ answered (make_error size id_raw 32003 (codes "Media service unavailable")) hub
    | some mp ↦
        let (mp', cs) = player_stop exited mp hub.children in
        answered (make_result size id_raw (codes "0"))
          (record hub { media = some mp'; children = cs })
  ]

  -- What follows the reading of the method and of the id.
  unfoldable pub run_method : List ℕ → List ℕ → Hub W → Text → Text → Text → Reply W
  run_method stale_file stale_dht hub request method id_raw =
      if same_text method (codes "led_control")
      then led_control hub request id_raw
      else if same_text method (codes "control")
      then control hub request id_raw
      else if same_text method (codes "dht11_read")
      then read_sensor stale_dht hub id_raw
      else if same_text method (codes "media_play")
      then media_play stale_file hub request id_raw
      else if same_text method (codes "media_stop")
      then media_stop hub id_raw
      else answered (make_error size id_raw 32601 (codes "Method not found")) hub

  -- The call returns 0 whenever it returns.
  unfoldable pub dispatch : List ℕ → List ℕ → List ℕ → Hub W → Text → Reply W
  dispatch stale_method stale_file stale_dht hub request =
      let (ok, method) = json_get_string pattern_size request (codes "method") stale_method in
      if ok
      then run_method stale_file stale_dht hub request (text_of method)
          (json_get_id_raw pattern_size request 64)
      else answered
          (reply_text size (
            codes
              "{\"jsonrpc\":\"2.0\",\"error\":{\"code\":-32600,\"message\":\"Invalid Request\"},\"id\":null}"))
          hub
