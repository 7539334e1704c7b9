-- ===== src/Protocol/Spi/Edge.antt =====
-- Which edges of the clock `edt_decode_spi` samples at.
use plat.Base.{ℕ, ◌≤◌, ◌≡◌, refl, true, false, arith}
use plat.LogicAnalyzer.{Sample}
use plat.Protocol.{bit}
use plat.Protocol.Spi.{
  SpiConfig, SpiState, selected, spi_shift, idle_level, sample_on_rising, sample_edge, skipped_edge,
  spi_step,
}

-- In the four modes the test for an edge to pass over never holds at a sampling edge.
edge_not_skipped :
    (cfg : SpiConfig) (st : SpiState) (prev_clk clk : ℕ)
    → cfg.cpol ≤ 1
    → cfg.cpha ≤ 1
    → sample_edge cfg prev_clk clk ≡ true
    → skipped_edge cfg st prev_clk ≡ false
unfolding sample_edge skipped_edge sample_on_rising idle_level
edge_not_skipped cfg st prev_clk clk p q e = ground arith

-- In the four SPI modes every sampling edge counts while the chip is selected: the data lines are
-- shifted in at each, the first of a byte too.
pub sampling_edge_shifts :
    (cfg : SpiConfig) (st : SpiState) (before s : Sample)
    → cfg.cpol ≤ 1
    → cfg.cpha ≤ 1
    → bit s.channels cfg.cs_channel ≡ 0
    → sample_edge cfg (bit before.channels cfg.clk_channel) (bit s.channels cfg.clk_channel) ≡ true
    → spi_step cfg st before s
      ≡ spi_shift
          (selected st)
          s
          (bit s.channels cfg.mosi_channel)
          (bit s.channels cfg.miso_channel)
unfolding spi_step
sampling_edge_shifts cfg st before s p q sel e =
    let kept = edge_not_skipped cfg (selected st) (bit before.channels cfg.clk_channel) _ p q e in
    rw (sel, e, kept) refl
