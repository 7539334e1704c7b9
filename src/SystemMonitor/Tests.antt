-- ===== src/SystemMonitor/Tests.antt =====
-- The monitor's theorem at two concrete readings.
use plat.Base.{ℕ, none, some, false, []}
use plat.SystemMonitor.{Monitor, CpuTimes, Readings, no_snapshot}

abbrev fresh : Monitor
fresh = record {
  interval_ms = 1000;
  network_iface = [];
  running = false;
  latest = no_snapshot;
  prev_cpu_total = 0;
  prev_cpu_idle = 0;
}

abbrev times : ℕ → ℕ → CpuTimes
times user idle = record {
  user = user;
  nice = 0;
  system = 20;
  idle = idle;
  iowait = 3;
  irq = 0;
  softirq = 1;
  steal = 0;
}

abbrev reading : CpuTimes → Readings
reading t = record { cpu = some t; mem = some (4000, 1000); net = none; now = 5 }

-- The wait for I/O falls by 2.
abbrev less_wait : CpuTimes
less_wait = record (times 130 800) { iowait = 1 }
