-- ===== src/Device/RoundTrip.antt =====
-- device_hal.c on top of the driver hub_led_drv.c: the protocol of the LED, which is active low, and
-- the registrations of the driver.
use plat.Base.{
  ℕ, zero, suc, ◌+◌, ◌≤◌, ◌≡◌, ◌⊎◌, inl, inr, refl, Bool, true, false, Option, none, some, List, [],
  ◌∷◌, ◌==◌, if◌then◌else◌, arith,
}
use plat.LedDriver.{
  Led, KernelResult, done, error, led_write, led_read, led_init, led_exit, unloaded, gpio_free,
  unregister, class_destroy,
}
use plat.Device.{
  led, Hal, handle, with_handle, open_handle, device_open, read_fd, write_fd, device_read,
  device_write, both_bytes, led_set, led_get, second_byte,
}

-- What the C library makes of a result of the driver.
abbrev pub to_count : KernelResult → Option ℕ
to_count (done n) = some n
to_count (error e) = none

abbrev pub driver_reads : ℕ → List ℕ → Led → Option ℕ × List ℕ
driver_reads fd buf w = let (r, out) = led_read true buf w in (to_count r, out)

abbrev pub driver_writes : ℕ → List ℕ → Led → Option ℕ × Led
driver_writes fd buf w = let (r, w') = led_write true buf w in (to_count r, w')

-- An open device stays as it is.
device_open-open :
    (opens : List ℕ → Bool → Option ℕ) (hal : Hal) (fd : ℕ)
    → hal.led_handle.fd ≡ some fd
    → device_open opens hal led ≡ (true, hal)
unfolding device_open handle with_handle open_handle
device_open-open opens hal fd e = rw e refl

module _ (opens : List ℕ → Bool → Option ℕ) (hal : Hal) (fd : ℕ)
    (e : hal.led_handle.fd ≡ some fd) where
  led_write-open :
      (buf : List ℕ) (w : Led)
      → device_write opens driver_reads driver_writes hal led buf w
        ≡ ((driver_writes fd buf w).0, hal, (driver_writes fd buf w).1)
  unfolding device_write handle write_fd
  led_write-open buf w = rw (device_open-open opens hal fd e, e) refl

  led_read-open :
      (buf : List ℕ) (w : Led)
      → device_read opens driver_reads driver_writes hal led buf w
        ≡ ((driver_reads fd buf w).0, (driver_reads fd buf w).1, hal)
  unfolding device_read handle read_fd
  led_read-open buf w = rw (device_open-open opens hal fd e, e) refl

  pub led_set-open :
      (on : ℕ) (w : Led)
      → led_set opens driver_reads driver_writes hal on w
        ≡ (true, hal, record w { level = if on == 0 then 1 else 0 })
  unfolding led_set led_write both_bytes
  led_set-open on w = rw (led_write-open (0 ∷ (if on == 0 then 1 else 0) ∷ []) w) (ground arith)

  pub led_get-open :
      (stale : ℕ) (w : Led)
      → led_get opens driver_reads driver_writes hal stale w
        ≡ (some (if w.level == 0 then 1 else 0), hal)
  unfolding led_get led_read both_bytes second_byte
  led_get-open stale w = rw (led_read-open (0 ∷ stale ∷ []) w) (ground arith)

-- The module's registrations hold all together or not at all: if one of the five registrations fails,
-- `hub_led_init` returns an error and nothing stays held; if none does it returns 0, all four are held,
-- the LED is off, and `hub_led_exit` gives all of them back and leaves the LED off.
pub led_init-balanced :
    (request direction register class device level : ℕ)
    → let (r, l) = led_init request direction register class device level in
      ((1 ≤ request + direction + register + class + device)
        × ((e : ℕ) × (1 ≤ e) × (r ≡ error e))
        × (l.gpio_held ≡ false)
        × (l.chrdev_held ≡ false)
        × (l.class_held ≡ false)
        × (l.device_held ≡ false))
      ⊎ ((request + direction + register + class + device ≡ 0)
          × (r ≡ done 0)
          × (l.level ≡ 1)
          × (l.gpio_held ≡ true)
          × (l.chrdev_held ≡ true)
          × (l.class_held ≡ true)
          × (l.device_held ≡ true)
          × (led_exit l ≡ unloaded 1))
unfolding led_init led_exit gpio_free unregister class_destroy unloaded
led_init-balanced (suc n) direction register class device level = inl (
  omega arith,
  (suc n, omega arith, ground arith),
  ground arith,
  ground arith,
  ground arith,
  ground arith,
)
led_init-balanced zero (suc n) register class device level = inl (
  omega arith,
  (suc n, omega arith, ground arith),
  ground arith,
  ground arith,
  ground arith,
  ground arith,
)
led_init-balanced zero zero (suc n) class device level = inl (
  omega arith,
  (suc n, omega arith, ground arith),
  ground arith,
  ground arith,
  ground arith,
  ground arith,
)
led_init-balanced zero zero zero (suc n) device level = inl (
  omega arith,
  (suc n, omega arith, ground arith),
  ground arith,
  ground arith,
  ground arith,
  ground arith,
)
led_init-balanced zero zero zero zero (suc n) level = inl (
  omega arith,
  (19, omega arith, ground arith),
  ground arith,
  ground arith,
  ground arith,
  ground arith,
)
led_init-balanced zero zero zero zero zero level =
    inr (refl, refl, refl, refl, refl, refl, refl, refl)
