-- ===== src/ToolkitMain/Arguments.antt =====
-- The arguments of embedded_debug_toolkit/src/main.c.
use plat.Base.{
  ℕ, ◌-◌, ◌%◌, ◌^◌, Bool, true, false, none, some, List, [], ◌∷◌, ltb, ◌==◌, if◌then◌else◌, min,
}
use plat.Base.Int.{ℤ, pos, negsuc}
use plat.Base.Text.{Text, codes, same_text, skip_spaces, starts_digit, digits_value, strtol, to_int}
use plat.LogicAnalyzer.Control.{max_rate_limit}
use plat.DebugService.{ServiceConfig}

-- `strtoul(s, NULL, 10)`, with 64 bits: it stops at its bound, and a minus negates the word.
unfoldable pub digits_word : Text → ℕ
digits_word s = if starts_digit s then digits_value 0 s else 0

unfoldable pub word_after_space : Text → ℕ
word_after_space [] = 0
word_after_space (c ∷ s) =
    if c == 45
    then (if ltb (digits_word s) (2 ^ 64) then (2 ^ 64 - digits_word s) % 2 ^ 64 else 2 ^ 64 - 1)
    else if c == 43
    then min (digits_word s) (2 ^ 64 - 1)
    else min (digits_word (c ∷ s)) (2 ^ 64 - 1)

unfoldable pub strtoul : Text → ℕ
strtoul s = word_after_space (skip_spaces s)

-- atoi.
unfoldable pub atoi : Text → ℤ
atoi s = elim (strtol s) [ none ↦ pos 0 | some v ↦ to_int v ]

-- `cfg` and `duration_sec`.
pub record Options : Type 0 where
  pub cfg : ServiceConfig
  pub duration_sec : ℕ

unfoldable pub default_options : Options
default_options = record {
  cfg = record {
    logic = record {
      sample_rate_hz = 5000000;
      max_sample_rate_hz = max_rate_limit;
      ring_capacity_samples = 131072;
      simulate_signal = true;
    };
    sump = record { bind_ip = some (codes "0.0.0.0"); port = 9527; capture_samples = 8192 };
    net_interface = some (codes "eth0");
    promiscuous = false;
    monitor_interval_ms = 500;
    monitor_iface = some (codes "eth0");
    v4l2_device = some (codes "/dev/video0");
    plugin_dir = some (codes "./plugins");
    enable_sump_server = true;
    enable_net_capture = true;
  };
  duration_sec = 10;
}

-- "--duration".
unfoldable pub duration_of : ℤ → ℕ
duration_of (pos n) = if n == 0 then 10 else n
duration_of (negsuc n) = 10

-- "--sample-rate", a uint32_t.
unfoldable pub rate_of : ℕ → ℕ
rate_of v = if v % 2 ^ 32 == 0 then 1000000 else v % 2 ^ 32

unfoldable pub with_iface : Options → Text → Options
with_iface o name = record o {
  cfg = record o.cfg { net_interface = some name; monitor_iface = some name };
}

unfoldable pub with_duration : Options → Text → Options
with_duration o s = record o { duration_sec = duration_of (atoi s) }

unfoldable pub with_sample_rate : Options → Text → Options
with_sample_rate o s = record o {
  cfg = record o.cfg { logic = record o.cfg.logic { sample_rate_hz = rate_of (strtoul s) } };
}

-- An argument that takes the next one, if there is one: whether it does.
unfoldable pub two_arguments : Options → Text → List Text → Bool × Options
two_arguments o arg [] = (false, o)
two_arguments o arg (value ∷ rest) =
    if same_text arg (codes "--iface")
    then (true, with_iface o value)
    else if same_text arg (codes "--duration")
    then (true, with_duration o value)
    else if same_text arg (codes "--sample-rate")
    then (true, with_sample_rate o value)
    else (false, o)

unfoldable pub one_argument : Options → Text → List Text → Bool × Options
one_argument o arg rest =
    if same_text arg (codes "--no-sump")
    then (false, record o { cfg = record o.cfg { enable_sump_server = false } })
    else if same_text arg (codes "--no-netcap")
    then (false, record o { cfg = record o.cfg { enable_net_capture = false } })
    else two_arguments o arg rest

-- The loop over the arguments; `taken` is whether the first one has been taken by the one before.
unfoldable pub parse_arguments : Bool → Options → List Text → Options
parse_arguments taken o [] = o
parse_arguments true o (arg ∷ args) = parse_arguments false o args
parse_arguments false o (arg ∷ args) =
    let (takes, o') = one_argument o arg args in parse_arguments takes o' args
