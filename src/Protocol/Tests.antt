-- ===== src/Protocol/Tests.antt =====
-- The theorems of the decoders at concrete samples.
use plat.Base.{
  ℕ, ◌+◌, ◌*◌, ◌/◌, ◌%◌, ◌^◌, ◌≡◌, ◌<◌, refl, some, List, [], ◌∷◌, ◌++◌, map, arith, zero, suc,
  true,
}
use plat.LogicAnalyzer.{Sample}
use plat.Protocol.{i2c, bit, shift_in, msb_first}
use plat.Protocol.Uart.{UartConfig, line, uart_round, uart_event, decode_uart}
use plat.Protocol.Uart.Total.{IsDecoded, decode_uart-IsDecoded}
use plat.Protocol.Uart.Frame.{IsFrame, uart_reads_frame}
use plat.Protocol.I2c.{I2cConfig, i2c_from}
use plat.Protocol.I2c.Byte.{IsPulse, Carries, nothing, pulse, byte_begins, i2c_reads_byte}
use plat.Protocol.Spi.{
  SpiConfig, spi_idle, spi_step, spi_shift, selected, sample_edge, sample_on_rising,
}
use plat.Protocol.Spi.Edge.{sampling_edge_shifts}

abbrev at : ℕ → Sample
at v = record { timestamp_ns = 0; channels = v }

-- Three samples a bit: idle, start, 01000001 with the low bit first, stop.
abbrev letter_a : List Sample
letter_a = map at (
    1 ∷ 0 ∷ 0 ∷ 0 ∷ 1 ∷ 1 ∷ 1 ∷ 0 ∷ 0 ∷ 0 ∷ 0 ∷ 0 ∷ 0 ∷ 0 ∷ 0 ∷ 0 ∷ 0 ∷ 0 ∷ 0 ∷ 0 ∷ 0 ∷ 0 ∷ 1 ∷ 1
    ∷ 1 ∷ 0 ∷ 0 ∷ 0 ∷ 1 ∷ 1 ∷ 1 ∷ 1 ∷ [])

letter_a-bits : (k : ℕ) → k < 8 → line letter_a 0 (1 + 3 + 3 / 2 + k * 3) ≡ 65 / 2 ^ k % 2
unfolding line bit
letter_a-bits zero h = refl
letter_a-bits (suc zero) h = refl
letter_a-bits (suc (suc zero)) h = refl
letter_a-bits (suc (suc (suc zero))) h = refl
letter_a-bits (suc (suc (suc (suc zero)))) h = refl
letter_a-bits (suc (suc (suc (suc (suc zero))))) h = refl
letter_a-bits (suc (suc (suc (suc (suc (suc zero)))))) h = refl
letter_a-bits (suc (suc (suc (suc (suc (suc (suc zero))))))) h = refl
letter_a-bits (suc (suc (suc (suc (suc (suc (suc (suc k)))))))) h = absurd (omega arith)

letter_a-IsFrame : IsFrame letter_a 0 3 1 65
unfolding line bit
letter_a-IsFrame = record {
  small = omega arith;
  idle = refl;
  falls = refl;
  start_bit = refl;
  bits = letter_a-bits;
  stop_bit = refl;
  inside = omega arith;
}

uart_reads_frame_example :
    uart_round letter_a 0 3 1 ≡ some (1 + 3 + 3 / 2 + 8 * 3 + 1, uart_event letter_a 0 1 65 ∷ [])
uart_reads_frame_example = uart_reads_frame letter_a 0 3 1 65 letter_a-IsFrame

abbrev slow_uart : UartConfig
slow_uart = record { rx_channel = 0; baudrate = 100; sample_rate_hz = 300 }

decode_uart-IsDecoded_example : IsDecoded 4 (decode_uart letter_a slow_uart 4)
decode_uart-IsDecoded_example = decode_uart-IsDecoded letter_a slow_uart 4

-- The clock on line 0 and the data on line 1.
abbrev two_wires : I2cConfig
two_wires = record { scl_channel = 0; sda_channel = 1 }

one_bit : IsPulse two_wires (at 2) (at 3) 1
unfolding bit
one_bit = record { clock_low = refl; clock_high = refl; data_low = refl; data_high = refl }

zero_bit : IsPulse two_wires (at 0) (at 1) 0
unfolding bit
zero_bit = record { clock_low = refl; clock_high = refl; data_low = refl; data_high = refl }

abbrev address : List Sample
address = map at (2 ∷ 3 ∷ 0 ∷ 1 ∷ 2 ∷ 3 ∷ 0 ∷ 1 ∷ 0 ∷ 1 ∷ 0 ∷ 1 ∷ 0 ∷ 1 ∷ 0 ∷ 1 ∷ [])

address-Carries : Carries two_wires address (1 ∷ 0 ∷ 1 ∷ 0 ∷ 0 ∷ 0 ∷ 0 ∷ 0 ∷ [])
address-Carries = pulse one_bit (
    pulse zero_bit (
      pulse one_bit (
        pulse zero_bit
          (pulse zero_bit (pulse zero_bit (pulse zero_bit (pulse zero_bit nothing)))))))

i2c_reads_byte_example :
    i2c_from two_wires (byte_begins two_wires) 3 (at 3) (address ++ at 0 ∷ at 1 ∷ [])
    ≡ record {
      type = i2c;
      timestamp_ns = 0;
      value0 = msb_first 0 (1 ∷ 0 ∷ 1 ∷ 0 ∷ 0 ∷ 0 ∷ 0 ∷ 0 ∷ []);
      value1 = 1;
    }
      ∷ i2c_from two_wires (byte_begins two_wires) 2 (at 1) []
i2c_reads_byte_example =
    i2c_reads_byte two_wires 2 (at 3) address (1 ∷ 0 ∷ 1 ∷ 0 ∷ 0 ∷ 0 ∷ 0 ∷ 0 ∷ []) (at 0) (at 1) 0
      [] address-Carries refl zero_bit

address-value : msb_first 0 (1 ∷ 0 ∷ 1 ∷ 0 ∷ 0 ∷ 0 ∷ 0 ∷ 0 ∷ []) ≡ 160
unfolding shift_in
address-value = refl

abbrev mode_three : SpiConfig
mode_three = record {
  clk_channel = 0;
  cs_channel = 1;
  mosi_channel = 2;
  miso_channel = 3;
  cpol = 1;
  cpha = 1;
}

mode_three-selected : bit 5 1 ≡ 0
unfolding bit
mode_three-selected = refl

mode_three-rises : sample_edge mode_three (bit 4 0) (bit 5 0) ≡ true
unfolding sample_edge sample_on_rising bit
mode_three-rises = refl

sampling_edge_shifts_example :
    spi_step mode_three spi_idle (at 4) (at 5)
    ≡ spi_shift (selected spi_idle) (at 5) (bit 5 2) (bit 5 3)
sampling_edge_shifts_example =
    sampling_edge_shifts mode_three spi_idle (at 4) (at 5) (omega arith) (omega arith)
      mode_three-selected mode_three-rises
