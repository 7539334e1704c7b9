-- ===== src/ToolkitMain.antt =====
-- embedded_debug_toolkit/src/main.c: the options that it takes from its arguments (in Arguments), and the
-- number of its rounds. The rounds themselves are not modelled.
pub mod Arguments
pub mod Bounds
mod Tests
use plat.Base.{ℕ, ◌*◌}
use plat.Base.Int.{ℤ, pos, negsuc}
use plat.Base.Text.{to_int}

-- How often `loop_count` is below an int.
unfoldable pub rounds_below : ℤ → ℕ
rounds_below (pos n) = n
rounds_below (negsuc n) = 0

-- `max_loops`, an int: the product is taken to wrap.
unfoldable pub max_loops : ℕ → ℕ
max_loops duration_sec = rounds_below (to_int (pos (duration_sec * 2)))
