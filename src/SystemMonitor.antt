-- ===== src/SystemMonitor.antt =====
-- embedded_debug_toolkit/src/tools/system_monitor.c: the readings of /proc, the snapshot made of two of
-- them, and the life of the monitor's thread. The C library's scanf gives the numbers; a percentage is
-- kept as the fraction whose value the code rounds to a double.

pub mod Usage
mod Tests
use plat.Base.{
  ℕ, zero, suc, ◌+◌, ◌-◌, ◌*◌, Bool, true, false, not, ◌&&◌, Option, none, some, List, [], ◌∷◌, ltb,
  leb, ◌==◌, if◌then◌else◌, drop,
}
use plat.Base.Words.{add_size, sub_size}
use plat.Base.Text.{Text, codes, same_text, strchr}

-- `edt_system_snapshot_t`; the usage is a numerator and a denominator.
pub record Snapshot : Type 0 where
  pub timestamp_ns : ℕ
  pub cpu_usage_percent : ℕ × ℕ
  pub mem_total_kb : ℕ
  pub mem_used_kb : ℕ
  pub mem_free_kb : ℕ
  pub net_rx_bytes : ℕ
  pub net_tx_bytes : ℕ

-- `edt_system_monitor_t` without its thread and lock.
pub record Monitor : Type 0 where
  pub interval_ms : ℕ
  pub network_iface : Text
  pub running : Bool
  pub latest : Snapshot
  pub prev_cpu_total : ℕ
  pub prev_cpu_idle : ℕ

-- The first line of /proc/stat; the numbers that sscanf does not find are 0.
pub record CpuTimes : Type 0 where
  pub user : ℕ
  pub nice : ℕ
  pub system : ℕ
  pub idle : ℕ
  pub iowait : ℕ
  pub irq : ℕ
  pub softirq : ℕ
  pub steal : ℕ

unfoldable pub cpu_idle : CpuTimes → ℕ
cpu_idle t = add_size t.idle t.iowait

unfoldable pub cpu_total : CpuTimes → ℕ
cpu_total t =
    add_size
      (add_size
        (add_size (add_size (add_size (add_size (add_size t.user t.nice) t.system) t.idle) t.iowait)
          t.irq)
        t.softirq)
      t.steal

-- The loop of `edt_read_mem` over the entries that fscanf reads: a key and a value.
unfoldable pub read_entries : List (Text × ℕ) → ℕ × ℕ → ℕ × ℕ
read_entries [] found = found
read_entries ((key, value) ∷ entries) (total, available) =
    if same_text key (codes "MemTotal:")
    then read_entries entries (value, available)
    else if same_text key (codes "MemAvailable:")
    then read_entries entries (total, value)
    else read_entries entries (total, available)

-- `edt_read_mem`; `none` is a file that cannot be opened.
unfoldable pub read_mem : Option (List (Text × ℕ)) → Option (ℕ × ℕ)
read_mem none = none
read_mem (some entries) = some (read_entries entries (0, 0))

-- What stands before the first colon.
unfoldable pub before_colon : Text → Text
before_colon [] = []
before_colon (c ∷ line) = let rest = before_colon line in if c == 58 then [] else c ∷ rest

unfoldable pub skip_blanks : Text → Text
skip_blanks [] = []
skip_blanks (c ∷ s) = let rest = skip_blanks s in if c == 32 then rest else c ∷ s

-- A line of /proc/net/dev; `scan` is sscanf on what follows the colon.
unfoldable pub scan_line : (Text → Option (ℕ × ℕ)) → Text → Text → Option (ℕ × ℕ)
scan_line scan iface line = elim (strchr line 58) [
  | none ↦ none
  | some rest ↦
      if same_text (skip_blanks (before_colon line)) iface then scan (drop 1 rest) else none
]

-- `edt_read_net` over the lines of the file: the first line of the interface that can be read.
unfoldable pub read_net : (Text → Option (ℕ × ℕ)) → Text → List Text → Option (ℕ × ℕ)
read_net scan iface [] = none
read_net scan iface (line ∷ lines) =
    let rest = read_net scan iface lines in
    elim (scan_line scan iface line) [ none ↦ rest | some found ↦ some found ]

-- What a round reads: the times, or `none` on an error, the memory, and the counters of the interface.
pub record Readings : Type 0 where
  pub cpu : Option CpuTimes
  pub mem : Option (ℕ × ℕ)
  pub net : Option (ℕ × ℕ)
  pub now : ℕ

abbrev pub no_snapshot : Snapshot
no_snapshot = record {
  timestamp_ns = 0;
  cpu_usage_percent = (0, 1);
  mem_total_kb = 0;
  mem_used_kb = 0;
  mem_free_kb = 0;
  net_rx_bytes = 0;
  net_tx_bytes = 0;
}

-- The usage since the reading before.
unfoldable pub usage_since : Monitor → CpuTimes → ℕ × ℕ
usage_since m t =
    let delta_total = sub_size (cpu_total t) m.prev_cpu_total in
    let delta_idle = sub_size (cpu_idle t) m.prev_cpu_idle in
    if not (m.prev_cpu_total == 0) && ltb m.prev_cpu_total (cpu_total t)
    then (sub_size delta_total delta_idle * 100, delta_total)
    else (0, 1)

unfoldable pub with_memory : Option (ℕ × ℕ) → Snapshot → Snapshot
with_memory none s = s
with_memory (some (total, free)) s = record s {
  mem_total_kb = total;
  mem_free_kb = free;
  mem_used_kb = if leb free total then total - free else 0;
}

unfoldable pub with_network : Option (ℕ × ℕ) → Snapshot → Snapshot
with_network none s = s
with_network (some (rx, tx)) s = record s { net_rx_bytes = rx; net_tx_bytes = tx }

-- `edt_system_collect_once` on a cleared snapshot. After an error of `edt_read_cpu` the two previous values
-- are what the variables on the stack hold, `stale`.
unfoldable pub collect_once : ℕ × ℕ → Readings → Monitor → Snapshot × Monitor
collect_once stale r m = elim r.cpu [
  | none ↦ (
    with_memory r.mem (with_network r.net (record no_snapshot { timestamp_ns = r.now })),
    record m { prev_cpu_total = stale.0; prev_cpu_idle = stale.1 },
  )
  | some t ↦ (
    with_memory r.mem (
        with_network r.net
          (record no_snapshot { timestamp_ns = r.now; cpu_usage_percent = usage_since m t })),
    record m { prev_cpu_total = cpu_total t; prev_cpu_idle = cpu_idle t },
  )
]

-- A round of `edt_system_monitor_thread`.
unfoldable pub monitor_round : ℕ × ℕ → Readings → Monitor → Monitor
monitor_round stale r m = let (snap, m') = collect_once stale r m in record m' { latest = snap }

-- `edt_system_monitor_init` with a configuration that may be null, and may have no interface and no
-- interval; `errno` is given if the lock cannot be made. The monitor is cleared in each case.
unfoldable pub monitor_init : Option (ℕ × Option Text) → Option ℕ → ℕ × Monitor
monitor_init config lock_error = (
  elim lock_error [ none ↦ 0 | some errno ↦ errno ],
  record {
    interval_ms = elim config [
      | none ↦ 1000
      | some (interval, name) ↦ if interval == 0 then 1000 else interval
    ];
    network_iface = elim config [
      | none ↦ codes "eth0"
      | some (interval, name) ↦ elim name [ none ↦ codes "eth0" | some n ↦ n ]
    ];
    running = false;
    latest = no_snapshot;
    prev_cpu_total = 0;
    prev_cpu_idle = 0;
  },
)

-- `made` is whether pthread_create succeeds, `errno` what the C variable holds then.
unfoldable pub monitor_start : Bool → ℕ → Monitor → ℕ × Monitor
monitor_start made errno m =
    if m.running then (0, m) else if made then (0, record m { running = true }) else (errno, m)

unfoldable pub monitor_stop : Monitor → ℕ × Monitor
monitor_stop m = if m.running then (0, record m { running = false }) else (0, m)

unfoldable pub monitor_destroy : Monitor → Monitor
monitor_destroy m = (monitor_stop m).1

unfoldable pub get_latest : Monitor → ℕ × Snapshot
get_latest m = (0, m.latest)
