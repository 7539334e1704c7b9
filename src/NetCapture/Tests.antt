-- ===== src/NetCapture/Tests.antt =====
-- The theorems of the packet capture at concrete values.
use plat.Base.{ℕ, ◌≡◌, refl, List, ◌∷◌, ◌++◌, replicate, arith}
use plat.NetCapture.{update_stats, no_stats, count_ipv4, count_protocol, eth_type, ip_protocol}
use plat.NetCapture.Counts.{IsCounted, update_stats-IsCounted}

-- An IPv4 frame that carries TCP.
abbrev tcp_frame : List ℕ
tcp_frame = replicate 12 0 ++ 8 ∷ 0 ∷ replicate 9 0 ++ 6 ∷ replicate 10 0

no_stats-IsCounted : IsCounted no_stats
no_stats-IsCounted = record {
  all_types = omega arith;
  ipv4_parts = omega arith;
  ipv4_total = omega arith;
  apart = omega arith;
}

tcp_counted : (update_stats 5 tcp_frame 34 no_stats).tcp_packets ≡ 1
unfolding update_stats count_ipv4 count_protocol eth_type ip_protocol
tcp_counted = refl

update_stats-IsCounted_example : IsCounted (update_stats 5 tcp_frame 34 no_stats)
update_stats-IsCounted_example =
    update_stats-IsCounted 5 tcp_frame 34 no_stats no_stats-IsCounted (omega arith)
