-- ===== src/HalDemo/Tests.antt =====
-- The demonstration with the defaults, and with a device that cannot be opened.
use plat.Base.{ℕ, ◌≡◌, refl, Bool, true, Option, some, List, [], ◌∷◌}
use plat.Base.Text.{Text, codes, strstr, starts_with}
use plat.LedDriver.{Led}
use plat.Device.RoundTrip.{driver_reads, driver_writes}
use plat.HubConfig.{FileRead, missing, unreadable, load_config}
use plat.HalDemo.{prints, hal_demo, command_of, is_config, demo_configured}
use plat.HalDemo.RoundTrip.{hal_demo-switches}

abbrev dark : Led
dark = record {
  gpio_held = true;
  level = 1;
  chrdev_held = true;
  class_held = true;
  device_held = true;
}

abbrev no_file : Text → FileRead
no_file path = missing

abbrev all_open : List ℕ → Bool → Option ℕ
all_open path block = some 3

hal_demo-switches_example :
    let first =
      hal_demo all_open driver_reads driver_writes no_file 9 []
        (codes "led" ∷ codes "on" ∷ [])
        dark in
    let second =
      hal_demo all_open driver_reads driver_writes no_file 7 []
        (codes "led" ∷ codes "get" ∷ [])
        first.3 in
    (first.0 ≡ 0)
    × (first.3 ≡ record dark { level = 0 })
    × (second.0 ≡ 0)
    × (second.1 ≡ prints (codes "LED=1\n"))
    × (second.3 ≡ first.3)
unfolding load_config
hal_demo-switches_example = hal_demo-switches no_file all_open 3 refl refl true 9 7 [] [] dark

-- A configuration that cannot be read ends the program.
not_loaded :
    (hal_demo all_open driver_reads driver_writes
      (λ path. unreadable)
      9
      []
      (codes "my.json" ∷ codes "dht" ∷ [])
      dark).1
    ≡ prints (codes "load config failed: my.json\n")
unfolding hal_demo command_of is_config strstr starts_with demo_configured load_config
not_loaded = refl
