-- ===== src/LedDriver.antt =====
-- smart_home_hub/drivers/led_char_safe/hub_led_drv.c: the kernel module of the LED, and its character
-- device. The registration calls of the kernel are given by their results.
use plat.Base.{ℕ, Bool, true, false, not, List, [], ◌∷◌, ltb, ◌==◌, if◌then◌else◌}

-- What the module holds, and the level of its pin.
pub record Led : Type 0 where
  pub gpio_held : Bool
  pub level : ℕ
  pub chrdev_held : Bool
  pub class_held : Bool
  pub device_held : Bool

unfoldable pub unloaded : ℕ → Led
unloaded level = record {
  gpio_held = false;
  level = level;
  chrdev_held = false;
  class_held = false;
  device_held = false;
}

-- A result of the module's calls: a count or 0, or n for the error -n.
pub data KernelResult : Type 0 where
  done : ℕ → KernelResult
  error : ℕ → KernelResult

-- `hub_led_write`. `copied` is whether copy_from_user reaches the buffer.
unfoldable pub led_write : Bool → List ℕ → Led → KernelResult × Led
led_write copied [] led = (error 22, led)
led_write copied (b ∷ []) led = (error 22, led)
led_write copied (index ∷ value ∷ rest) led =
    if not copied
    then (error 14, led)
    else if not (ltb index 1)
    then (error 22, led)
    else (done 2, record led { level = if value == 0 then 0 else 1 })

-- `hub_led_read`: the result, and the buffer after the call.
unfoldable pub led_read : Bool → List ℕ → Led → KernelResult × List ℕ
led_read copied [] led = (error 22, [])
led_read copied (b ∷ []) led = (error 22, b ∷ [])
led_read copied (index ∷ value ∷ rest) led =
    if not copied
    then (error 14, index ∷ value ∷ rest)
    else if not (ltb index 1)
    then (error 22, index ∷ value ∷ rest)
    else (done 2, index ∷ (if led.level == 0 then 0 else 1) ∷ rest)

unfoldable pub gpio_free : Led → Led
gpio_free led = record led { gpio_held = false }

unfoldable pub unregister : Led → Led
unregister led = record led { chrdev_held = false }

unfoldable pub class_destroy : Led → Led
class_destroy led = record led { class_held = false }

-- `hub_led_init`: the arguments are the errors of the five registrations, 0 for success, and the level
-- of the pin before.
unfoldable pub led_init : ℕ → ℕ → ℕ → ℕ → ℕ → ℕ → KernelResult × Led
led_init request direction register class device level =
    let requested : Led = record (unloaded level) { gpio_held = true } in
    let driven : Led = record requested { level = 1 } in
    let registered : Led = record driven { chrdev_held = true } in
    let classed : Led = record registered { class_held = true } in
    if not (request == 0)
    then (error request, unloaded level)
    else if not (direction == 0)
    then (error direction, gpio_free requested)
    else if not (register == 0)
    then (error register, gpio_free driven)
    else if not (class == 0)
    then (error class, gpio_free (unregister registered))
    else if not (device == 0)
    then (error 19, gpio_free (unregister (class_destroy classed)))
    else (done 0, record classed { device_held = true })

-- `hub_led_exit`.
unfoldable pub led_exit : Led → Led
led_exit led =
    let removed : Led = unregister (class_destroy (record led { device_held = false })) in
    gpio_free (record removed { level = 1 })
