-- ===== src/HalDemo/RoundTrip.antt =====
-- Two runs of the demonstration, on top of the driver of the LED.
use plat.Base.{ℕ, ◌≡◌, refl, Bool, true, false, Option, some, List, [], ◌∷◌, take}
use plat.Base.Text.{Text, codes, same_text, strstr, starts_with, print_nat, digits}
use plat.LedDriver.{Led}
use plat.Device.{
  Hal, handle, with_handle, closed_handle, nonblock, open_handle, device_open, hal_init, hal_deinit,
}
use plat.Device.RoundTrip.{driver_reads, driver_writes, led_set-open, led_get-open}
use plat.HubConfig.{Config, FileRead, load_config}
use plat.Rpc.{text_of}
use plat.HalDemo.{
  Printed, prints, is_config, command_of, demo_set, show_led, demo_led, demo_command,
  demo_configured, hal_demo,
}

-- The layer opens the LED if its device can be opened.
hal_init-opens :
    (opens : List ℕ → Bool → Option ℕ) (led_dev dht11_dev video_dev : List ℕ) (fd : ℕ)
    → opens (take 63 led_dev) false ≡ some fd
    → (hal_init opens led_dev dht11_dev video_dev).led_handle.fd ≡ some fd
unfolding hal_init device_open open_handle handle with_handle closed_handle nonblock
hal_init-opens opens led_dev dht11_dev video_dev fd e = rw e refl

-- The argument for a state of the LED, and what the two commands print for it.
abbrev pub switch : Bool → Text
switch true = codes "on"
switch false = codes "off"

abbrev pub level_for : Bool → ℕ
level_for true = 0
level_for false = 1

abbrev pub shown : Bool → Text
shown true = codes "LED=1\n"
shown false = codes "LED=0\n"

module _ (opens : List ℕ → Bool → Option ℕ) (hal : Hal) (fd : ℕ)
    (open_led : hal.led_handle.fd ≡ some fd) (stale : ℕ) (buffer : List ℕ) where
  demo_set-open :
      (on : Bool) (w : Led)
      → let (status, printed, hal', w') =
          demo_command opens driver_reads driver_writes hal stale buffer
            (codes "led" ∷ switch on ∷ [])
            w in
        (status ≡ 0) × (w' ≡ record w { level = level_for on })
  unfolding demo_command demo_led demo_set same_text
  demo_set-open true w = rw (led_set-open opens hal fd open_led 1 w) (refl, refl)
  demo_set-open false w = rw (led_set-open opens hal fd open_led 0 w) (refl, refl)

  demo_get-open :
      (on : Bool) (w : Led)
      → w.level ≡ level_for on
      → let (status, printed, hal', w') =
          demo_command opens driver_reads driver_writes hal stale buffer
            (codes "led" ∷ codes "get" ∷ [])
            w in
        (status ≡ 0) × (printed ≡ prints (shown on)) × (w' ≡ w)
  unfolding demo_command demo_led show_led same_text print_nat digits
  demo_get-open true w e = rw (led_get-open opens hal fd open_led stale w, e) (refl, refl, refl)
  demo_get-open false w e = rw (led_get-open opens hal fd open_led stale w, e) (refl, refl, refl)

-- What the end of `main` makes of the command's result.
abbrev finish : {W : Type 0} → ℕ × Printed × Hal × W → ℕ × Printed × Option Hal × W
finish (status, printed, hal, w) = (status, printed, some (hal_deinit hal).0, w)

default_path :
    (rest : List Text)
    → command_of (codes "led") rest ≡ (codes "config/hub_config.json", codes "led" ∷ rest)
unfolding command_of is_config strstr starts_with
default_path rest = refl

module _ (files : Text → FileRead) (opens : List ℕ → Bool → Option ℕ) (fd : ℕ)
    (loaded : (load_config (files (codes "config/hub_config.json"))).0 ≡ true)
    (opened : opens
        (take 63 (text_of (load_config (files (codes "config/hub_config.json"))).1.led_dev))
        false
      ≡ some fd) where
  abbrev cfg : Config
  cfg = (load_config (files (codes "config/hub_config.json"))).1

  abbrev start_hal : Hal
  start_hal = hal_init opens (text_of cfg.led_dev) (text_of cfg.dht11_dev) (text_of cfg.video_dev)

  hal_demo-finish :
      (stale : ℕ) (buffer : List ℕ) (rest : List Text) (w : Led)
      → hal_demo opens driver_reads driver_writes files stale buffer (codes "led" ∷ rest) w
        ≡ finish (
            demo_command opens driver_reads driver_writes start_hal stale buffer
              (codes "led" ∷ rest)
              w)
  unfolding hal_demo demo_configured
  hal_demo-finish stale buffer rest w = rw (default_path rest, loaded) refl

  -- If the default configuration can be read and its LED can be opened: a run of the demonstration with
  -- "led on" or "led off", and then one with "led get", both succeed; the first drives the pin, low for on,
  -- and the second prints the state that the first has set, and leaves it.
  pub hal_demo-switches :
      (on : Bool) (stale stale' : ℕ) (buffer buffer' : List ℕ) (w : Led)
      → let first =
          hal_demo opens driver_reads driver_writes files stale buffer
            (codes "led" ∷ switch on ∷ [])
            w in
        let second =
          hal_demo opens driver_reads driver_writes files stale' buffer'
            (codes "led" ∷ codes "get" ∷ [])
            first.3 in
        (first.0 ≡ 0)
        × (first.3 ≡ record w { level = level_for on })
        × (second.0 ≡ 0)
        × (second.1 ≡ prints (shown on))
        × (second.3 ≡ first.3)
  hal_demo-switches on stale stale' buffer buffer' w =
      let open_led =
        hal_init-opens opens (text_of cfg.led_dev) (text_of cfg.dht11_dev) (text_of cfg.video_dev)
          fd opened in
      let (done, driven) = demo_set-open opens start_hal fd open_led stale buffer on w in
      let lit : Led = record w { level = level_for on } in
      let (got, printed, same) =
        demo_get-open opens start_hal fd open_led stale' buffer' on lit refl in
      rw
        (
          hal_demo-finish stale buffer (switch on ∷ []) w,
          driven,
          hal_demo-finish stale' buffer' (codes "get" ∷ []) lit,
        )
        (done, refl, got, printed, same)
