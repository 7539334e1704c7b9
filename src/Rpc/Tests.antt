-- ===== src/Rpc/Tests.antt =====
-- The theorems of the dispatcher at concrete requests.
use plat.Base.{
  ℕ, zero, suc, ◌≡◌, refl, Bool, true, false, Option, none, some, List, [], ◌∷◌, ◌++◌, replicate,
  arith,
}
use plat.Base.Text.{Text, codes, starts_with, strstr, strchr, skip_spaces, is_space}
use plat.Json.{
  skip_ws, key_pattern, next_text, json_find_key, find_pattern, starts_quote, array_start, c_string,
  is_nil,
}
use plat.Json.Find.{IsId}
use plat.LedDriver.{Led}
use plat.Device.{Handle}
use plat.Device.RoundTrip.{driver_reads, driver_writes}
use plat.Rpc.{Hub, overruns, media_play}
use plat.Rpc.Methods.{AllString, long_file-overruns}

abbrev shut : Handle
shut = record { fd = none; path = [] }

abbrev off : Led
off = record {
  gpio_held = true;
  level = 1;
  chrdev_held = true;
  class_held = true;
  device_held = true;
}

abbrev home : Hub Led
home = record {
  hal = record {
    led_handle = record { fd = some 3; path = [] };
    dht11_handle = shut;
    camera_handle = shut;
  };
  world = off;
  media = some (record { pid = none; default_file = [] });
  children = [];
}

abbrev no_opens : List ℕ → Bool → Option ℕ
no_opens path block = none

seven-IsId : IsId (codes "\"a7\"")
unfolding is_space is_nil
seven-IsId = record { plain = ground arith; some_byte = refl; short = omega arith }

-- A name of 300 bytes.
abbrev long_name : Text
long_name = codes "{\"method\":\"media_play\",\"file\":\"" ++ replicate 300 97

AllString-replicate : (n : ℕ) → AllString (replicate n 97)
AllString-replicate zero = tt
AllString-replicate (suc n) = (omega arith, omega arith, AllString-replicate n)

long_name-key :
    json_find_key 64 long_name (codes "file")
    ≡ some (34 ∷ ((97 ∷ replicate 254 97) ++ replicate 45 97))
unfolding json_find_key find_pattern key_pattern strstr starts_with strchr next_text skip_ws
    skip_spaces is_space
long_name-key = refl

long_name-no_array : array_start 64 long_name (codes "params") ≡ none
unfolding array_start json_find_key find_pattern key_pattern strstr starts_with
long_name-no_array = refl

stale_end : c_string (1 ∷ []) ≡ none
unfolding c_string
stale_end = refl

long_rest : starts_quote (replicate 45 97) ≡ false
unfolding starts_quote
long_rest = refl

long_file-overruns_example :
    media_play no_opens driver_reads driver_writes
      (λ p. false)
      none
      512
      (replicate 256 1)
      home
      long_name
      (codes "1")
    ≡ overruns
long_file-overruns_example =
    long_file-overruns no_opens driver_reads driver_writes (λ p. false) none 512 (replicate 256 1)
      home (record { pid = none; default_file = [] }) long_name (codes "1") 97 (replicate 254 97)
      (replicate 45 97) refl long_name-key (AllString-replicate 255) refl long_rest
      long_name-no_array refl stale_end
