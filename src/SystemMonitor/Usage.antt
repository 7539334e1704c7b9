-- ===== src/SystemMonitor/Usage.antt =====
-- The snapshots of system_monitor.c for two readings.
use plat.Base.{ℕ, ◌+◌, ◌-◌, ◌*◌, ◌≤◌, ◌<◌, ◌≡◌, ◌⊎◌, some}
use plat.Base.Words.{sub_size}
use plat.SystemMonitor.{Monitor, CpuTimes, Readings, cpu_idle, cpu_total, usage_since}

abbrev pub sum : CpuTimes → ℕ
sum t = t.user + t.nice + t.system + t.idle + t.iowait + t.irq + t.softirq + t.steal

-- The time that the processor is idle, and the rest.
abbrev pub idle_sum : CpuTimes → ℕ
idle_sum t = t.idle + t.iowait

abbrev pub busy_sum : CpuTimes → ℕ
busy_sum t = t.user + t.nice + t.system + t.irq + t.softirq + t.steal

abbrev pub IsPercent : ℕ × ℕ → Type 0
IsPercent (numerator, denominator) = (1 ≤ denominator) × (numerator ≤ 100 * denominator)

abbrev pub IsOver : ℕ × ℕ → Type 0
IsOver (numerator, denominator) = 100 * denominator < numerator

abbrev pub Rises : CpuTimes → CpuTimes → Type 0
Rises before after = (1 ≤ sum before) × (sum before < sum after)

-- The usage that is shown for two readings.
pub data Shows (before after : CpuTimes) (usage : ℕ × ℕ) : Type 0 where
  nothing : (sum before ≡ 0) ⊎ (sum after ≤ sum before) → usage ≡ (0, 1) → Shows before after usage
  share :
      Rises before after
      → idle_sum before ≤ idle_sum after
      → busy_sum before ≤ busy_sum after
      → usage ≡ ((busy_sum after - busy_sum before) * 100, sum after - sum before)
      → IsPercent usage
      → Shows before after usage
  too_much :
      Rises before after
      → (idle_sum after < idle_sum before) ⊎ (busy_sum after < busy_sum before)
      → IsOver usage
      → Shows before after usage

-- The quotient that is taken of the sums, in words.
abbrev quotient : CpuTimes → CpuTimes → ℕ × ℕ
quotient before after =
    let delta_total = sub_size (sum after) (sum before) in
    (sub_size delta_total (sub_size (idle_sum after) (idle_sum before)) * 100, delta_total)

module _ (stale : ℕ × ℕ) (m : Monitor) (r : Readings) (t : CpuTimes) (known : r.cpu ≡ some t) where
  abbrev IsTaken : Monitor → Type 0
  IsTaken m' =
      (m'.latest.cpu_usage_percent ≡ usage_since m t)
      × (m'.prev_cpu_total ≡ cpu_total t)
      × (m'.prev_cpu_idle ≡ cpu_idle t)
      × (m'.latest.mem_used_kb ≤ m'.latest.mem_total_kb)
