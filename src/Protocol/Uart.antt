-- ===== src/Protocol/Uart.antt =====
-- `edt_decode_uart`: frames of a start bit, eight data bits, least significant first, and a stop bit.
pub mod Total
pub mod Frame
use plat.Base.{
  ℕ, zero, suc, ◌+◌, ◌-◌, ◌*◌, ◌/◌, ◌%◌, ◌^◌, ◌≤◌, ◌<◌, ◌≡◌, refl, sym, ap, ◌∙◌, Bool, true, false,
  not, ◌&&◌, ◌||◌, Option, none, some, List, [], ◌∷◌, ◌++◌, length, get_elem?, ltb, leb, ◌==◌,
  if◌then◌else◌, arith, map, length-append, inl, inr, Option-cases,
}
use plat.Base.Words.{to_u8}
use plat.LogicAnalyzer.{Sample}
use plat.Protocol.{Event, uart, bit}

pub record UartConfig : Type 0 where
  pub rx_channel : ℕ
  pub baudrate : ℕ
  pub sample_rate_hz : ℕ

module _ (samples : List Sample) (rx : ℕ) where
  -- The level of the line at a sample; an index past the end is never read.
  unfoldable pub line : ℕ → ℕ
  line i = elim (get_elem? samples i) [ none ↦ 0 | some s ↦ bit s.channels rx ]

  unfoldable pub time_at : ℕ → ℕ
  time_at i = elim (get_elem? samples i) [ none ↦ 0 | some s ↦ s.timestamp_ns ]

  -- The loop over the data bits, `rounds` of which are left: the index of the bit, the value, and the
  -- position. The bit that is set in the value is not set yet: `|=` adds it.
  unfoldable pub data_bits : ℕ → ℕ → ℕ → ℕ → ℕ → ℕ × ℕ × ℕ
  data_bits per_bit zero bit_index value pos = (bit_index, value, pos)
  data_bits per_bit (suc rounds) bit_index value pos =
      let rest =
        data_bits per_bit rounds (bit_index + 1) (value + to_u8 (line pos * 2 ^ bit_index))
          (pos + per_bit) in
      if leb (length samples) pos then (bit_index, value, pos) else rest

  unfoldable pub uart_event : ℕ → ℕ → Event
  uart_event start value = record {
    type = uart;
    timestamp_ns = time_at start;
    value0 = value;
    value1 = 0;
  }

  -- A frame that starts at `start`: `none` is the `break`, otherwise the index to go on from and the
  -- events.
  unfoldable pub frame : ℕ → ℕ → Option (ℕ × List Event)
  frame per_bit start =
      let (bits, value, pos) = data_bits per_bit 8 0 0 (start + per_bit + per_bit / 2) in
      if leb (length samples) (start + per_bit / 2)
      then none
      else if not (line (start + per_bit / 2) == 0)
      then some (start + 1, [])
      else if ltb bits 8 || leb (length samples) pos
      then none
      else some (pos + 1, if line pos == 1 then uart_event start value ∷ [] else [])

  -- A round of the loop.
  unfoldable pub uart_round : ℕ → ℕ → Option (ℕ × List Event)
  uart_round per_bit i =
      if (line (i - 1) == 1) && (line i == 0) then frame per_bit i else some (i + 1, [])

  -- The loop on fuel, with room for `room` events: `none` is a loop that has not ended.
  unfoldable pub uart_from : ℕ → ℕ → ℕ → ℕ → Option (List Event)
  uart_from per_bit zero i room = none
  uart_from per_bit (suc fuel) i room = elim (ltb i (length samples) && ltb 0 room) [
    | false ↦ some []
    | true ↦ elim (uart_round per_bit i) [
      | none ↦ some []
      | some (j, events) ↦ elim (uart_from per_bit fuel j (room - length events)) [
        | none ↦ none
        | some later ↦ some (events ++ later)
      ]
    ]
  ]

unfoldable pub decode_uart : List Sample → UartConfig → ℕ → Option (List Event)
decode_uart samples cfg max_events =
    let per_bit = cfg.sample_rate_hz / cfg.baudrate in
    if (max_events == 0) || (cfg.baudrate == 0) || (cfg.sample_rate_hz == 0)
    then some []
    else if leb 8 cfg.rx_channel
    then some []
    else if ltb per_bit 3
    then some []
    else uart_from samples cfg.rx_channel per_bit (length samples + 1) 1 max_events
