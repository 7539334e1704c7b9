-- ===== src/Device/Tests.antt =====
-- The theorems of the devices at concrete values.
use plat.Base.{ℕ, ◌+◌, ◌≤◌, ◌≡◌, ◌⊎◌, true, false}
use plat.LedDriver.{done, error, led_init, led_exit, unloaded}
use plat.Device.RoundTrip.{led_init-balanced}

led_init-balanced_example :
    let (r, led) = led_init 0 0 0 5 0 1 in
    ((1 ≤ 0 + 0 + 0 + 5 + 0)
      × ((e : ℕ) × (1 ≤ e) × (r ≡ error e))
      × (led.gpio_held ≡ false)
      × (led.chrdev_held ≡ false)
      × (led.class_held ≡ false)
      × (led.device_held ≡ false))
    ⊎ ((0 + 0 + 0 + 5 + 0 ≡ 0)
        × (r ≡ done 0)
        × (led.level ≡ 1)
        × (led.gpio_held ≡ true)
        × (led.chrdev_held ≡ true)
        × (led.class_held ≡ true)
        × (led.device_held ≡ true)
        × (led_exit led ≡ unloaded 1))
led_init-balanced_example = led_init-balanced 0 0 0 5 0 1
