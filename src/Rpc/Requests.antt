-- ===== src/Rpc/Requests.antt =====
-- A whole request of a client, from its text down to the pin of the LED.
use plat.Base.{
  ℕ, ◌+◌, ◌-◌, ◌%◌, ◌^◌, ◌≤◌, ◌<◌, ◌≡◌, refl, ◌∙◌, Bool, true, false, Option, some, List, ◌∷◌, ◌++◌,
  ◌==◌, if◌then◌else◌, drop, length, arith, ltb, lt→ltb, take-all, length-append,
}
use plat.Base.Int.{pos}
use plat.Base.Text.{
  Text, codes, same_text, is_space, starts_with, strstr, strchr, skip_spaces, print_nat, to_int,
  word_to_int, starts_digit, is_digit,
}
use plat.Json.{
  skip_ws, key_pattern, next_text, json_find_key, find_pattern, copy_string, starts_quote,
  read_string, quoted, json_get_string, json_get_id_raw, or_null, json_get_first_array_int,
  c_string, array_start, int_at,
}
use plat.Json.Find.{strstr-digits, IsId, copy_raw-plain, trim_end-plain, skip_ws-plain}
use plat.Base.Text.Decimal.{
  AllDigits, print_nat-AllDigits, strtol-print_nat, skip_spaces-digit, starts_digit-print_nat,
}
use plat.LedDriver.{Led}
use plat.Device.RoundTrip.{driver_reads, driver_writes, led_set-open}
use plat.Rpc.{
  Hub, answered, text_of, pattern_size, make_result, reply_text, set_led, flag, led_control,
  run_method, dispatch,
}

-- What a client sends to switch the LED.
abbrev pub led_request : Text → Text → Text
led_request number id =
    codes "{\"jsonrpc\":\"2.0\",\"method\":\"led_control\",\"params\":["
    ++ (number ++ (codes "],\"id\":" ++ (id ++ codes "}")))

module _ (number id : Text) where
  method-led_request :
      (stale : List ℕ)
      → length stale ≡ 64
      → json_get_string pattern_size (led_request number id) (codes "method") stale
        ≡ (true, codes "led_control" ++ 0 ∷ drop 12 stale)
  unfolding json_get_string json_find_key find_pattern key_pattern strstr starts_with strchr
      next_text skip_ws skip_spaces is_space quoted read_string starts_quote copy_string
  method-led_request stale h = rw h refl

  params-led_request :
      array_start pattern_size (led_request number id) (codes "params")
      ≡ some (skip_ws (number ++ (codes "],\"id\":" ++ (id ++ codes "}"))))
  unfolding array_start json_find_key find_pattern key_pattern strstr starts_with strchr next_text
      skip_ws skip_spaces is_space
  params-led_request = refl

  abbrev after_number : Text
  after_number = codes "],\"id\":" ++ (id ++ codes "}")

  key_before :
      strstr (led_request number id) (codes "\"id\"")
      ≡ strstr (number ++ after_number) (codes "\"id\"")
  unfolding strstr starts_with
  key_before = refl

  key_after : strstr after_number (codes "\"id\"") ≡ some (codes "\"id\":" ++ (id ++ codes "}"))
  unfolding strstr starts_with
  key_after = refl

  id_value :
      AllDigits number
      → json_find_key pattern_size (led_request number id) (codes "id")
        ≡ some (skip_ws (id ++ codes "}"))
  unfolding json_find_key find_pattern strchr next_text key_pattern
  id_value h =
      rw (find_pattern, key_before ∙ strstr-digits number after_number (codes "id\"") h ∙ key_after)
        refl

  id-led_request :
      AllDigits number → IsId id → json_get_id_raw pattern_size (led_request number id) 64 ≡ id
  unfolding json_get_id_raw or_null
  id-led_request h i =
      rw
        (
          json_get_id_raw,
          id_value h,
          skip_ws-plain id (codes "}") i.plain i.some_byte,
          copy_raw-plain 63 id i.plain i.short,
          trim_end-plain id i.plain,
          i.some_byte,
        )
        refl

to_int-small : (n : ℕ) → n < 2 ^ 31 → to_int (pos n) ≡ pos n
unfolding to_int word_to_int
to_int-small n small =
    let word : n % 2 ^ 32 ≡ n = omega arith in
    let below : ltb n (2 ^ 31) ≡ true = lt→ltb n (2 ^ 31) small in rw (word, below) refl

number_value :
    (n : ℕ) (rest : Text)
    → n < 2 ^ 31
    → starts_digit rest ≡ false
    → int_at (skip_ws (print_nat n ++ rest)) ≡ some (pos n)
unfolding int_at skip_ws
number_value n rest small ends =
    rw
      (
        int_at,
        skip_spaces-digit (print_nat n ++ rest) (starts_digit-print_nat n rest),
        strtol-print_nat n rest (omega arith) ends,
        to_int-small n small,
      )
      refl

params-value :
    (n : ℕ) (id : Text)
    → n < 2 ^ 31
    → json_get_first_array_int pattern_size (led_request (print_nat n) id) (codes "params")
      ≡ some (pos n)
unfolding json_get_first_array_int starts_digit is_digit
params-value n id small =
    rw (json_get_first_array_int, params-led_request (print_nat n) id)
      (number_value n (after_number (print_nat n) id) small ends)
  where
    ends : starts_digit (after_number (print_nat n) id) ≡ false
    ends = refl

method_text : (rest : List ℕ) → text_of (codes "led_control" ++ 0 ∷ rest) ≡ codes "led_control"
unfolding text_of c_string
method_text rest = refl

-- The text that answers a request for a change.
abbrev pub done_text : Text → Text
done_text id = codes "{\"jsonrpc\":\"2.0\",\"result\":0,\"id\":" ++ (id ++ codes "}")

fits_by : (id : Text) → length (done_text id) ≤ length id + 39
fits_by id = omega (arith, length-append id (codes "}"))

done_text-fits :
    (size : ℕ) (id : Text) → length id + 40 ≤ size → make_result size id (codes "0") ≡ done_text id
unfolding make_result reply_text
done_text-fits size id h = take-all (size - 1) (done_text id) (omega (arith, fits_by id))

module _ (opens : List ℕ → Bool → Option ℕ) (exited : ℕ → Bool) (fork : Option ℕ) (size fd : ℕ)
    (hub : Hub Led) (open_led : hub.hal.led_handle.fd ≡ some fd) where
  set_led-open :
      (n : ℕ)
      → set_led opens driver_reads driver_writes exited fork size hub (pos n)
        ≡ (true, record hub { world = record hub.world { level = if n == 0 then 1 else 0 } })
  unfolding set_led flag
  set_led-open n = rw (led_set-open opens hub.hal fd open_led n hub.world) refl

  led_control-answer :
      (n : ℕ) (id : Text)
      → n < 2 ^ 31
      → led_control opens driver_reads driver_writes exited fork size hub
          (led_request (print_nat n) id)
          id
        ≡ answered
            (make_result size id (codes "0"))
            (record hub { world = record hub.world { level = if n == 0 then 1 else 0 } })
  unfolding led_control
  led_control-answer n id small = rw (led_control, params-value n id small, set_led-open n) refl

  -- A request `{"jsonrpc":"2.0","method":"led_control","params":[n],"id":i}` with a number below 2 ^ 31
  -- and an id of at most 63 bytes without commas, braces and spaces, on a hub whose LED is open, drives
  -- the pin low just if n is not 0, changes nothing else, and is answered with the result 0 and the
  -- request's id, if the response buffer has room for the answer; whatever the buffers on the stack
  -- held before.
  pub dispatch-led_request :
      (n : ℕ) (id : Text) (stale_method stale_file stale_dht : List ℕ)
      → n < 2 ^ 31
      → IsId id
      → length stale_method ≡ 64
      → length id + 40 ≤ size
      → dispatch opens driver_reads driver_writes exited fork size stale_method stale_file stale_dht
          hub
          (led_request (print_nat n) id)
        ≡ answered
            (done_text id)
            (record hub { world = record hub.world { level = if n == 0 then 1 else 0 } })
  unfolding dispatch run_method same_text
  dispatch-led_request n id stale_method stale_file stale_dht small i sized room =
      rw
        (
          dispatch,
          method-led_request (print_nat n) id stale_method sized,
          method_text (drop 12 stale_method),
          id-led_request (print_nat n) id (print_nat-AllDigits n) i,
          led_control-answer n id small,
          done_text-fits size id room,
        )
        refl
