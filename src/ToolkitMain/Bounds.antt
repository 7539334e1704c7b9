-- ===== src/ToolkitMain/Bounds.antt =====
-- The bounds of the toolkit's options and of its rounds, whatever its arguments.
use plat.Base.{ℕ, ◌*◌, ◌^◌, ◌≤◌, ◌<◌, ◌≡◌, ◌⊎◌}
use plat.Base.Int.{ℤ, pos, negsuc}
use plat.Base.Text.{Text}
use plat.ToolkitMain.Arguments.{Options}

-- An int that is not negative is below 2 ^ 31.
abbrev IsInt : ℤ → Type 0
IsInt (pos n) = n < 2 ^ 31
IsInt (negsuc n) = Unit

-- The duration is an int from 1 on, and the rate a uint32_t from 1 on.
pub record InBounds (o : Options) : Type 0 where
  pub some_time : 1 ≤ o.duration_sec
  pub int_time : o.duration_sec < 2 ^ 31
  pub some_rate : 1 ≤ o.cfg.logic.sample_rate_hz
  pub word_rate : o.cfg.logic.sample_rate_hz < 2 ^ 32

-- The rounds of a duration.
abbrev pub Loops : ℕ → ℕ → Type 0
Loops duration_sec loops =
    ((duration_sec < 2 ^ 30) × (loops ≡ 2 * duration_sec)) ⊎ ((2 ^ 30 ≤ duration_sec) × (loops ≡ 0))
