-- ===== src/NetCapture.antt =====
-- embedded_debug_toolkit/src/tools/net_capture.c: the packet counters, and the life of the capture. The
-- results of the socket calls are parameters; a null argument is not modelled.
pub mod Counts
mod Tests
use plat.Base.{
  ℕ, zero, suc, ◌+◌, ◌*◌, ◌^◌, Bool, true, false, not, Option, none, some, List, [], ◌∷◌, length,
  get_or, ltb, leb, ◌==◌, if◌then◌else◌,
}
use plat.Base.Words.{add_size}

-- `edt_net_capture_stats_t`: uint64_t counters.
pub record Stats : Type 0 where
  pub timestamp_ns : ℕ
  pub packets_total : ℕ
  pub bytes_total : ℕ
  pub ipv4_packets : ℕ
  pub arp_packets : ℕ
  pub tcp_packets : ℕ
  pub udp_packets : ℕ
  pub icmp_packets : ℕ
  pub other_packets : ℕ

-- `ntohs(eth->h_proto)`: bytes 12 and 13 of the frame, the high one first.
unfoldable pub eth_type : List ℕ → ℕ
eth_type packet = get_or packet 12 0 * 256 + get_or packet 13 0

-- `ip->protocol`: the tenth byte of the header that follows the 14 bytes of Ethernet's.
unfoldable pub ip_protocol : List ℕ → ℕ
ip_protocol packet = get_or packet 23 0

unfoldable pub count_arp : Stats → Stats
count_arp s = record s { arp_packets = add_size s.arp_packets 1 }

unfoldable pub count_other : Stats → Stats
count_other s = record s { other_packets = add_size s.other_packets 1 }

unfoldable pub count_protocol : ℕ → Stats → Stats
count_protocol protocol s =
    if protocol == 6
    then record s { tcp_packets = add_size s.tcp_packets 1 }
    else if protocol == 17
    then record s { udp_packets = add_size s.udp_packets 1 }
    else if protocol == 1
    then record s { icmp_packets = add_size s.icmp_packets 1 }
    else count_other s

unfoldable pub count_ipv4 : List ℕ → ℕ → Stats → Stats
count_ipv4 packet len s =
    let counted : Stats = record s { ipv4_packets = add_size s.ipv4_packets 1 } in
    if leb 34 len then count_protocol (ip_protocol packet) counted else counted

-- `edt_net_update_stats` at time `now`, which the lock makes one step.
unfoldable pub update_stats : ℕ → List ℕ → ℕ → Stats → Stats
update_stats now packet len s =
    let counted : Stats = record s {
      timestamp_ns = now;
      packets_total = add_size s.packets_total 1;
      bytes_total = add_size s.bytes_total len;
    } in
    if ltb len 14
    then s
    else if eth_type packet == 2054
    then count_arp counted
    else if eth_type packet == 2048
    then count_ipv4 packet len counted
    else count_other counted

-- `edt_net_capture_t` without its thread and lock. A descriptor that is -1 is `none`.
pub record Capture : Type 0 where
  pub interface_name : List ℕ
  pub promiscuous : Bool
  pub socket_fd : Option ℕ
  pub stats : Stats
  pub running : Bool

abbrev pub no_stats : Stats
no_stats = record {
  timestamp_ns = 0;
  packets_total = 0;
  bytes_total = 0;
  ipv4_packets = 0;
  arp_packets = 0;
  tcp_packets = 0;
  udp_packets = 0;
  icmp_packets = 0;
  other_packets = 0;
}

-- `edt_net_capture_init` with a configuration that may be null and may have no name; "eth0" stands in.
unfoldable pub capture_init : Option (Option (List ℕ) × Bool) → Capture
capture_init config = record {
  interface_name = elim config [
    | none ↦ 101 ∷ 116 ∷ 104 ∷ 48 ∷ []
    | some (name, p) ↦ elim name [ none ↦ 101 ∷ 116 ∷ 104 ∷ 48 ∷ [] | some n ↦ n ]
  ];
  promiscuous = elim config [ none ↦ false | some (name, p) ↦ p ];
  socket_fd = none;
  stats = no_stats;
  running = false;
}

unfoldable pub without_socket : Capture → Capture
without_socket c = record c { socket_fd = none }

-- `edt_net_capture_start`: the results of socket, if_nametoindex, bind and pthread_create, and errno
-- after each. The result is 0, or n for -n.
unfoldable pub capture_start : Option ℕ → ℕ → Bool → Bool → (ℕ → ℕ) → Capture → ℕ × Capture
capture_start socket if_index bound made errno c = if c.running then (0, c) else elim socket [
  | none ↦ (errno 0, without_socket c)
  | some fd ↦
      let opened : Capture = record c { socket_fd = some fd } in
      if if_index == 0
      then (errno 1, without_socket opened)
      else if not bound
      then (errno 2, without_socket opened)
      else if not made
      then (errno 3, without_socket (record opened { running = false }))
      else (0, record opened { running = true })
]

unfoldable pub capture_stop : Capture → ℕ × Capture
capture_stop c = if c.running then (0, without_socket (record c { running = false })) else (0, c)

unfoldable pub capture_destroy : Capture → Capture
capture_destroy c = (capture_stop c).1

unfoldable pub get_stats : Capture → ℕ × Stats
get_stats c = (0, c.stats)

-- A packet in the thread's loop: `recv` with a count that is not positive changes nothing.
unfoldable pub on_packet : ℕ → List ℕ → Capture → Capture
on_packet now packet c =
    if length packet == 0
    then c
    else record c { stats = update_stats now packet (length packet) c.stats }
