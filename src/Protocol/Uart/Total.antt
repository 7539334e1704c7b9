-- ===== src/Protocol/Uart/Total.antt =====
-- `edt_decode_uart` returns, fills at most the room that it has, and every value is a byte.
use native.Mathlib.Nat.{pow-suc}
use plat.Base.{
  ℕ, zero, suc, ◌+◌, ◌-◌, ◌*◌, ◌/◌, ◌^◌, ◌≤◌, ◌<◌, ◌≡◌, refl, ap, ◌⊎◌, Option, none, some, List, [],
  ◌∷◌, ◌++◌, length, length-append, leb, ◌==◌, if◌then◌else◌, arith, if_both, inl, inr,
}
use plat.Base.Words.{to_u8}
use plat.LogicAnalyzer.{Sample}
use plat.Protocol.{Event, bit}
use plat.Protocol.Uart.{
  UartConfig, line, data_bits, uart_event, frame, uart_round, uart_from, decode_uart,
}

abbrev pub AllBytes : List Event → Type 0
AllBytes [] = Unit
AllBytes (e ∷ es) = (e.value0 < 256) × AllBytes es

AllBytes-append : (es fs : List Event) → AllBytes es → AllBytes fs → AllBytes (es ++ fs)
AllBytes-append [] fs h k = k
AllBytes-append (e ∷ es) fs (p, h) k = (p, AllBytes-append es fs h k)

-- A decoder that has returned within its room.
pub record IsDecoded (room : ℕ) (r : Option (List Event)) : Type 0 where
  pub events : List Event
  pub returns : r ≡ some events
  pub fits : length events ≤ room
  pub bytes : AllBytes events

low_times : (b p : ℕ) → b < 2 → b * p ≤ p
low_times zero p h = omega arith
low_times (suc zero) p h = omega arith
low_times (suc (suc b)) p h = absurd (omega arith)

next_index : (k : ℕ) → k + 1 ≡ suc k
next_index k = omega arith

module _ (samples : List Sample) (rx : ℕ) where
  line_bound : (i : ℕ) → line samples rx i < 2
  unfolding line bit
  line_bound i = ground arith

  data_bits-bound :
      (per_bit rounds k value pos : ℕ)
      → value < 2 ^ k
      → let (k', value', pos') = data_bits samples rx per_bit rounds k value pos in
        (value' < 2 ^ k') × (k' ≤ k + rounds) × (pos ≤ pos')
  unfolding data_bits
  data_bits-bound per_bit zero k value pos h = (h, omega arith, omega arith)
  data_bits-bound per_bit (suc rounds) k value pos h =
      let b : ℕ = line samples rx pos in
      let small : b * 2 ^ k ≤ 2 ^ k = low_times b (2 ^ k) (line_bound pos) in
      let later =
        data_bits-bound per_bit rounds (k + 1) (value + to_u8 (b * 2 ^ k)) (pos + per_bit)
          (omega (arith, small, pow-suc 2 k, ap (λ e. 2 ^ e) (next_index k))) in
      if_both (λ (r : ℕ × ℕ × ℕ). (r.1 < 2 ^ r.0) × (r.0 ≤ k + suc rounds) × (pos ≤ r.2))
        (leb (length samples) pos) _ _ (λ e. (h, omega arith, omega arith))
        (λ e. (later.0, omega (arith, later.1), omega (arith, later.2)))

  -- How a round of the loop ends.
  data Round (i : ℕ) (r : Option (ℕ × List Event)) : Type 0 where
    stops : r ≡ none → Round i r
    goes :
        (j : ℕ) (events : List Event)
        → r ≡ some (j, events)
        → i < j
        → length events ≤ 1
        → AllBytes events
        → Round i r

  stop_bit : (per_bit start pos value : ℕ) → List Event
  stop_bit per_bit start pos value =
      if line samples rx pos == 1 then uart_event samples rx start value ∷ [] else []

  frame_cases :
      (per_bit start : ℕ)
      → let (bits, value, pos) =
          data_bits samples rx per_bit 8 0 0 (start + per_bit + per_bit / 2) in
        (frame samples rx per_bit start ≡ none)
        ⊎ (frame samples rx per_bit start ≡ some (start + 1, []))
        ⊎ ((8 ≤ bits)
            × (frame samples rx per_bit start ≡ some (pos + 1, stop_bit per_bit start pos value)))
  unfolding frame stop_bit
  frame_cases per_bit start = ground arith

  stop_bit-bytes :
      (per_bit start pos value : ℕ)
      → value < 256
      → (length (stop_bit per_bit start pos value) ≤ 1)
        × AllBytes (stop_bit per_bit start pos value)
  unfolding stop_bit uart_event
  stop_bit-bytes per_bit start pos value h =
      if_both (λ es. (length es ≤ 1) × AllBytes es) (line samples rx pos == 1) _ _
        (λ e. (omega arith, (h, record {}))) (λ e. (omega arith, record {}))

  byte_bound : (k value : ℕ) → k ≤ 8 → 8 ≤ k → value < 2 ^ k → value < 256
  byte_bound k value p q h = let e : k ≡ 8 = omega arith in omega (arith, ap (λ i. 2 ^ i) e)

  frame-Round : (per_bit start : ℕ) → Round start (frame samples rx per_bit start)
  frame-Round per_bit start =
      let (value, bits, pos) =
        data_bits-bound per_bit 8 0 0 (start + per_bit + per_bit / 2) (omega arith) in
      elim (frame_cases per_bit start) [
        | inl e ↦ stops e
        | inr (inl e) ↦ goes (start + 1) [] e (omega arith) (omega arith) (record {})
        | inr (inr (eight, e)) ↦
            let (few, small) = stop_bit-bytes per_bit start _ _ (byte_bound _ _ bits eight value) in
            goes _ _ e (omega (arith, pos)) few small
      ]

  uart_round-Round : (per_bit i : ℕ) → Round i (uart_round samples rx per_bit i)
  unfolding uart_round
  uart_round-Round per_bit i =
      if_both (Round i) _ _ _ (λ e. frame-Round per_bit i)
        (λ e. goes (i + 1) [] refl (omega arith) (omega arith) (record {}))

  module _ (per_bit fuel i room : ℕ) where
    uart_from-over :
        (length samples ≤ i) ⊎ (room ≡ 0) → uart_from samples rx per_bit (suc fuel) i room ≡ some []
    unfolding uart_from
    uart_from-over h = ground arith

    uart_from-stops :
        uart_round samples rx per_bit i ≡ none
        → uart_from samples rx per_bit (suc fuel) i room ≡ some []
    unfolding uart_from
    uart_from-stops h = ground arith

    uart_from-goes :
        (j : ℕ) (events later : List Event)
        → i < length samples
        → 0 < room
        → uart_round samples rx per_bit i ≡ some (j, events)
        → uart_from samples rx per_bit fuel j (room - length events) ≡ some later
        → uart_from samples rx per_bit (suc fuel) i room ≡ some (events ++ later)
    unfolding uart_from
    uart_from-goes j events later p q e f = ground arith

  nothing-IsDecoded : (room : ℕ) (r : Option (List Event)) → r ≡ some [] → IsDecoded room r
  nothing-IsDecoded room r e = record {
    events = [];
    returns = e;
    fits = omega arith;
    bytes = record {};
  }

  place : (i room : ℕ) → ((length samples ≤ i) ⊎ (room ≡ 0)) ⊎ ((i < length samples) × (0 < room))
  place i room = ground arith

  uart_from-IsDecoded :
      (per_bit fuel i room : ℕ)
      → length samples < i + fuel
      → 0 < fuel
      → IsDecoded room (uart_from samples rx per_bit fuel i room)
  uart_from-IsDecoded per_bit zero i room h p = absurd (omega arith)
  uart_from-IsDecoded per_bit (suc fuel) i room h p = elim (place i room) [
    | inl over ↦ nothing-IsDecoded room _ (uart_from-over per_bit fuel i room over)
    | inr (inside, some_room) ↦ elim (uart_round-Round per_bit i) [
      | stops e ↦ nothing-IsDecoded room _ (uart_from-stops per_bit fuel i room e)
      | goes j events e further few small ↦
          let later =
            uart_from-IsDecoded per_bit fuel j (room - length events) (omega (arith, further))
              (omega arith) in
          record {
            events = events ++ later.events;
            returns =
                uart_from-goes per_bit fuel i room j events later.events inside some_room e
                  later.returns;
            fits = omega (arith, length-append events later.events, later.fits);
            bytes = AllBytes-append events later.events small later.bytes;
          }
    ]
  ]

decode_uart-cases :
    (samples : List Sample) (cfg : UartConfig) (max_events : ℕ)
    → (decode_uart samples cfg max_events ≡ some [])
      ⊎ (decode_uart samples cfg max_events
          ≡ uart_from samples cfg.rx_channel
              (cfg.sample_rate_hz / cfg.baudrate)
              (length samples + 1)
              1
              max_events)
unfolding decode_uart
decode_uart-cases samples cfg max_events = ground arith

-- Whatever the samples and the configuration, the UART decoder returns, gives `max_events` events at
-- most, and every event's value is a byte.
pub decode_uart-IsDecoded :
    (samples : List Sample) (cfg : UartConfig) (max_events : ℕ)
    → IsDecoded max_events (decode_uart samples cfg max_events)
decode_uart-IsDecoded samples cfg max_events = elim (decode_uart-cases samples cfg max_events) [
  | inl e ↦ nothing-IsDecoded samples cfg.rx_channel max_events _ e
  | inr e ↦ rw e (
      uart_from-IsDecoded samples cfg.rx_channel (cfg.sample_rate_hz / cfg.baudrate)
        (length samples + 1) 1 max_events (omega arith) (omega arith))
]
