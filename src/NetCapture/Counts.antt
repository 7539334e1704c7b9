-- ===== src/NetCapture/Counts.antt =====
-- The counters of net_capture.c agree with each other, and a socket is open just while a capture runs.
use plat.Base.{ℕ, ◌+◌, ◌-◌, ◌^◌, ◌≤◌, ◌<◌, ◌≡◌, Bool, false, Option, none, List, arith}
use plat.Base.Words.{add_size}
use plat.NetCapture.{
  Stats, update_stats, count_arp, count_other, count_protocol, count_ipv4, Capture, capture_start,
  capture_stop, without_socket,
}

-- Every packet is counted once by its type, and an IPv4 packet once more by its protocol, unless its
-- header is cut off: counters below 2 ^ 64 add up.
pub record IsCounted (s : Stats) : Type 0 where
  pub all_types : s.packets_total ≤ s.arp_packets + s.ipv4_packets + s.other_packets
  pub ipv4_parts :
      s.tcp_packets + s.udp_packets + s.icmp_packets + s.arp_packets + s.other_packets
      ≤ s.packets_total
  pub ipv4_total : s.tcp_packets + s.udp_packets + s.icmp_packets ≤ s.ipv4_packets
  pub apart : s.arp_packets + s.ipv4_packets ≤ s.packets_total

no_wrap : (n : ℕ) → n < 2 ^ 64 - 1 → add_size n 1 ≡ n + 1
no_wrap n h = omega arith

-- While fewer than 2 ^ 64 - 1 packets have been counted, a packet keeps the counters consistent: the
-- packets of the three types are at least all packets, the packets that are counted by protocol, as
-- ARP or as others are at most all packets, and so are those of ARP and IPv4.
pub update_stats-IsCounted :
    (now : ℕ) (packet : List ℕ) (len : ℕ) (s : Stats)
    → IsCounted s
    → s.packets_total < 2 ^ 64 - 1
    → IsCounted (update_stats now packet len s)
unfolding update_stats count_arp count_other count_protocol count_ipv4
update_stats-IsCounted now packet len s h small = record {
  all_types = ground (arith, h.all_types, h.ipv4_parts, h.ipv4_total, h.apart);
  ipv4_parts = ground (arith, h.all_types, h.ipv4_parts, h.ipv4_total, h.apart);
  ipv4_total = ground (arith, h.all_types, h.ipv4_parts, h.ipv4_total, h.apart);
  apart = ground (arith, h.all_types, h.ipv4_parts, h.ipv4_total, h.apart);
}

-- A capture has a socket just while it runs.
abbrev pub IsConsistent : Capture → Type 0
IsConsistent c = (c.running ≡ false → c.socket_fd ≡ none)

-- After a call of start, which may fail at any of its steps, and after one of stop, a capture that does
-- not run has no socket: a start that fails closes the one that it has opened.
pub capture_start-IsConsistent :
    (socket : Option ℕ) (if_index : ℕ) (bound made : Bool) (errno : ℕ → ℕ) (c : Capture)
    → IsConsistent c
    → IsConsistent (capture_start socket if_index bound made errno c).1
      × IsConsistent (capture_stop (capture_start socket if_index bound made errno c).1).1
unfolding capture_start capture_stop without_socket
capture_start-IsConsistent socket if_index bound made errno c h = ground (arith, h)
