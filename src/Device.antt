-- ===== src/Device.antt =====
-- smart_home_hub/src/device/device_hal.c and include/device_hal.h: the devices of the hub, opened on
-- demand. The system's open, read and write are parameters. A null argument is not modelled.
pub mod RoundTrip
mod Tests
use plat.Base.{
  ℕ, zero, suc, Bool, true, false, not, ◌&&◌, Option, none, some, List, [], ◌∷◌, ◌++◌, length, take,
  ◌==◌, if◌then◌else◌,
}

pub data DeviceId : Type 0 where
  led : DeviceId
  dht11 : DeviceId
  camera : DeviceId

-- A path is its characters. A descriptor that is -1 is `none`.
pub record Handle : Type 0 where
  pub fd : Option ℕ
  pub path : List ℕ

-- `hub_device_hal_t`: a handle for each device.
pub record Hal : Type 0 where
  pub led_handle : Handle
  pub dht11_handle : Handle
  pub camera_handle : Handle

unfoldable pub handle : Hal → DeviceId → Handle
handle hal led = hal.led_handle
handle hal dht11 = hal.dht11_handle
handle hal camera = hal.camera_handle

unfoldable pub with_handle : Hal → DeviceId → Handle → Hal
with_handle hal led h = record hal { led_handle = h }
with_handle hal dht11 h = record hal { dht11_handle = h }
with_handle hal camera h = record hal { camera_handle = h }

-- `strcmp(a, b) == 0`
unfoldable pub same_path : List ℕ → List ℕ → Bool
same_path [] [] = true
same_path [] (c ∷ cs) = false
same_path (c ∷ cs) [] = false
same_path (c ∷ cs) (d ∷ ds) = (c == d) && same_path cs ds

-- "/dev/hub_led", "/dev/100ask_led", "/dev/mydht11", "/dev/video0" and "/dev/video1".
unfoldable pub fallback_paths : DeviceId → List (List ℕ)
fallback_paths led =
    (47 ∷ 100 ∷ 101 ∷ 118 ∷ 47 ∷ 104 ∷ 117 ∷ 98 ∷ 95 ∷ 108 ∷ 101 ∷ 100 ∷ [])
    ∷ (47 ∷ 100 ∷ 101 ∷ 118 ∷ 47 ∷ 49 ∷ 48 ∷ 48 ∷ 97 ∷ 115 ∷ 107 ∷ 95 ∷ 108 ∷ 101 ∷ 100 ∷ [])
    ∷ []
fallback_paths dht11 = (47 ∷ 100 ∷ 101 ∷ 118 ∷ 47 ∷ 109 ∷ 121 ∷ 100 ∷ 104 ∷ 116 ∷ 49 ∷ 49 ∷ []) ∷ []
fallback_paths camera =
    (47 ∷ 100 ∷ 101 ∷ 118 ∷ 47 ∷ 118 ∷ 105 ∷ 100 ∷ 101 ∷ 111 ∷ 48 ∷ [])
    ∷ (47 ∷ 100 ∷ 101 ∷ 118 ∷ 47 ∷ 118 ∷ 105 ∷ 100 ∷ 101 ∷ 111 ∷ 49 ∷ [])
    ∷ []

-- Only the sensor is opened without blocking.
unfoldable pub nonblock : DeviceId → Bool
nonblock led = false
nonblock dht11 = true
nonblock camera = false

unfoldable pub closed_handle : List ℕ → Handle
closed_handle path = record { fd = none; path = take 63 path }

module _ (opens : List ℕ → Bool → Option ℕ) where
  -- The loop over the fallback paths: the descriptor and the path that was opened.
  unfoldable pub open_fallback : List ℕ → Bool → List (List ℕ) → Option (ℕ × List ℕ)
  open_fallback path block [] = none
  open_fallback path block (p ∷ ps) =
      let later = open_fallback path block ps in
      if same_path path p
      then later
      else elim (opens p block) [ none ↦ later | some fd ↦ some (fd, p) ]

  -- `ensure_open` for a device: whether it is open now.
  unfoldable pub open_handle : DeviceId → Handle → Bool × Handle
  open_handle dev h = elim h.fd [
    | some fd ↦ (true, h)
    | none ↦ elim (opens h.path (nonblock dev)) [
      | some fd ↦ (true, record h { fd = some fd })
      | none ↦ elim (open_fallback h.path (nonblock dev) (fallback_paths dev)) [
        | some (fd, p) ↦ (true, record { fd = some fd; path = p })
        | none ↦ (false, h)
      ]
    ]
  ]

  unfoldable pub device_open : Hal → DeviceId → Bool × Hal
  device_open hal dev =
      let (ok, h) = open_handle dev (handle hal dev) in (ok, with_handle hal dev h)

  unfoldable pub hal_init : List ℕ → List ℕ → List ℕ → Hal
  hal_init led_dev dht11_dev video_dev =
      let hal : Hal = record {
        led_handle = closed_handle led_dev;
        dht11_handle = closed_handle dht11_dev;
        camera_handle = closed_handle video_dev;
      } in
      (device_open (device_open hal led).1 dht11).1

-- The descriptors that a call of close gives back.
unfoldable pub closed_fd : Option ℕ → List ℕ
closed_fd none = []
closed_fd (some fd) = fd ∷ []

-- `hub_device_close`: the device is closed, and the descriptors are those that are given to close.
unfoldable pub device_close : Hal → DeviceId → Hal × List ℕ
device_close hal dev =
    let h = handle hal dev in (with_handle hal dev (record h { fd = none }), closed_fd h.fd)

unfoldable pub hal_deinit : Hal → Hal × List ℕ
hal_deinit hal =
    let (hal1, fds1) = device_close hal led in
    let (hal2, fds2) = device_close hal1 dht11 in
    let (hal3, fds3) = device_close hal2 camera in (hal3, fds1 ++ fds2 ++ fds3)

-- `W` is the state of the devices. A call of read or write gives the count or `none` for -1; a read
-- also gives the buffer.
module _ {W : Type 0} (opens : List ℕ → Bool → Option ℕ)
    (reads : ℕ → List ℕ → W → Option ℕ × List ℕ) (writes : ℕ → List ℕ → W → Option ℕ × W) where
  unfoldable pub read_fd : Option ℕ → List ℕ → W → Option ℕ × List ℕ
  read_fd none buf w = (none, buf)
  read_fd (some fd) buf w = reads fd buf w

  unfoldable pub write_fd : Option ℕ → List ℕ → W → Option ℕ × W
  write_fd none buf w = (none, w)
  write_fd (some fd) buf w = writes fd buf w

  -- The size of a buffer is not 0.
  unfoldable pub device_read : Hal → DeviceId → List ℕ → W → Option ℕ × List ℕ × Hal
  device_read hal dev buf w =
      let (ok, hal') = device_open opens hal dev in
      let (n, out) = read_fd (handle hal' dev).fd buf w in
      if ok then (n, out, hal') else (none, buf, hal')

  unfoldable pub device_write : Hal → DeviceId → List ℕ → W → Option ℕ × Hal × W
  device_write hal dev buf w =
      let (ok, hal') = device_open opens hal dev in
      let (n, w') = write_fd (handle hal' dev).fd buf w in
      if ok then (n, hal', w') else (none, hal', w)

  unfoldable pub both_bytes : Option ℕ → Bool
  both_bytes none = false
  both_bytes (some n) = n == 2

  -- HUB_IOCTL_LED_SET through `hub_led_set`: whether it returns 0.
  unfoldable pub led_set : Hal → ℕ → W → Bool × Hal × W
  led_set hal on w =
      let (n, hal', w') = device_write hal led (0 ∷ (if on == 0 then 1 else 0) ∷ []) w in
      (both_bytes n, hal', w')

  unfoldable pub second_byte : List ℕ → ℕ
  second_byte [] = 0
  second_byte (b ∷ []) = 0
  second_byte (b ∷ c ∷ rest) = c

  unfoldable pub first_byte : List ℕ → ℕ
  first_byte [] = 0
  first_byte (b ∷ rest) = b

  -- HUB_IOCTL_LED_GET through `hub_led_get`: `stale` stands in the second byte of the buffer before.
  unfoldable pub led_get : Hal → ℕ → W → Option ℕ × Hal
  led_get hal stale w =
      let (n, out, hal') = device_read hal led (0 ∷ stale ∷ []) w in
      (if both_bytes n then some (if second_byte out == 0 then 1 else 0) else none, hal')

  -- HUB_IOCTL_DHT11_READ through `hub_dht11_read`: humidity and temperature.
  unfoldable pub dht11_read : Hal → List ℕ → W → Option (ℕ × ℕ) × Hal
  dht11_read hal buf w =
      let (n, out, hal') = device_read hal dht11 buf w in
      (if both_bytes n then some (first_byte out, second_byte out) else none, hal')
