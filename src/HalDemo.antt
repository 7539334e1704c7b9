-- ===== src/HalDemo.antt =====
-- smart_home_hub/tools/hal_demo/hal_demo.c: one command for the devices of the hub. A program without a name is not
-- modelled, and the usage text is named, not spelled out.
pub mod RoundTrip
mod Tests
use plat.Base.{ℕ, Bool, true, false, Option, none, some, List, [], ◌∷◌, ◌++◌, if◌then◌else◌}
use plat.Base.Text.{Text, codes, same_text, strstr, print_nat}
use plat.Device.{Hal, hal_init, hal_deinit, led_set, led_get, dht11_read}
use plat.HubConfig.{FileRead, load_config}
use plat.Rpc.{text_of}

-- What is printed: the usage, or a line.
pub data Printed : Type 0 where
  usage : Printed
  prints : Text → Printed

unfoldable pub is_config : Text → Bool
is_config arg = elim (strstr arg (codes ".json")) [ none ↦ false | some rest ↦ true ]

-- The path of the configuration, and the arguments from the command on.
unfoldable pub command_of : Text → List Text → Text × List Text
command_of arg rest =
    if is_config arg then (arg, rest) else (codes "config/hub_config.json", arg ∷ rest)

module _ {W : Type 0} (opens : List ℕ → Bool → Option ℕ)
    (reads : ℕ → List ℕ → W → Option ℕ × List ℕ) (writes : ℕ → List ℕ → W → Option ℕ × W) where
  -- Setting the LED: its result is not looked at.
  unfoldable pub demo_set : Hal → ℕ → W → Hal × W
  demo_set hal on w = let (ok, hal', w') = led_set opens reads writes hal on w in (hal', w')

  unfoldable pub show_led : Option ℕ → Printed
  show_led none = prints (codes "LED get failed\n")
  show_led (some on) = prints (codes "LED=" ++ (print_nat on ++ codes "\n"))

  unfoldable pub show_climate : Option (ℕ × ℕ) → Printed
  show_climate none = prints (codes "DHT11 read failed\n")
  show_climate (some (humi, temp)) = prints (
      codes "DHT11 temp=" ++ (print_nat temp ++ (codes " humi=" ++ (print_nat humi ++ codes "\n"))))

  -- "led": the status, what is printed, the devices' layer and the devices.
  unfoldable pub demo_led : Hal → ℕ → List Text → W → ℕ × Printed × Hal × W
  demo_led hal stale [] w = (1, usage, hal, w)
  demo_led hal stale (arg ∷ rest) w =
      let (on_hal, on_w) = demo_set hal 1 w in
      let (off_hal, off_w) = demo_set hal 0 w in
      let (got, get_hal) = led_get opens reads writes hal stale w in
      if same_text arg (codes "on")
      then (0, prints (codes "LED set on\n"), on_hal, on_w)
      else if same_text arg (codes "off")
      then (0, prints (codes "LED set off\n"), off_hal, off_w)
      else if same_text arg (codes "get")
      then (0, show_led got, get_hal, w)
      else (0, usage, hal, w)

  -- The command and its arguments.
  unfoldable pub demo_command : Hal → ℕ → List ℕ → List Text → W → ℕ × Printed × Hal × W
  demo_command hal stale buffer [] w = (1, usage, hal, w)
  demo_command hal stale buffer (cmd ∷ rest) w =
      let (values, read_hal) = dht11_read opens reads writes hal buffer w in
      if same_text cmd (codes "led")
      then demo_led hal stale rest w
      else if same_text cmd (codes "dht")
      then (0, show_climate values, read_hal, w)
      else (0, usage, hal, w)

  -- What follows the choice of the configuration `file`, which is at `path`; the layer is closed at the end.
  unfoldable pub demo_configured :
      (Text → FileRead) → ℕ → List ℕ → Text → List Text → W → ℕ × Printed × Option Hal × W
  demo_configured files stale buffer path [] w = (1, usage, none, w)
  demo_configured files stale buffer path (cmd ∷ rest) w =
      let (loaded, cfg) = load_config (files path) in
      let hal =
        hal_init opens (text_of cfg.led_dev) (text_of cfg.dht11_dev) (text_of cfg.video_dev) in
      let (status, printed, hal', w') = demo_command hal stale buffer (cmd ∷ rest) w in
      if loaded
      then (status, printed, some (hal_deinit hal').0, w')
      else (1, prints (codes "load config failed: " ++ (path ++ codes "\n")), none, w)

  -- `main` with the arguments after the program's name. `files` is what each path can be read as, and `stale` and
  -- `buffer` are what the buffers on the stack hold before.
  unfoldable pub hal_demo :
      (Text → FileRead) → ℕ → List ℕ → List Text → W → ℕ × Printed × Option Hal × W
  hal_demo files stale buffer [] w = (1, usage, none, w)
  hal_demo files stale buffer (arg ∷ args) w =
      let (path, command) = command_of arg args in demo_configured files stale buffer path command w
