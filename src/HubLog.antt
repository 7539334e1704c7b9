-- ===== src/HubLog.antt =====
-- smart_home_hub/src/utils/hub_log.c: the level of the log, and the lines that are written. The time of day and the
-- formatted message are texts.
mod Tests
use plat.Base.{ℕ, [], ◌++◌, ltb, if◌then◌else◌}
use plat.Base.Text.{Text, codes}

-- `hub_log_level_t`.
pub data Level : Type 0 where
  error : Level
  warn : Level
  info : Level
  debug : Level

unfoldable pub level_number : Level → ℕ
level_number error = 0
level_number warn = 1
level_number info = 2
level_number debug = 3

-- `level_text` of one of the four levels.
unfoldable pub level_text : Level → Text
level_text error = codes "E"
level_text warn = codes "W"
level_text info = codes "I"
level_text debug = codes "D"

-- `g_level`, and what has been written to the standard error output.
pub record Log : Type 0 where
  pub level : Level
  pub written : Text

unfoldable pub fresh_log : Log
fresh_log = record { level = info; written = [] }

-- `hub_log_set_level`.
unfoldable pub set_level : Level → Log → Log
set_level level log = record log { level = level }

unfoldable pub log_line : Level → Text → Text → Text
log_line level time message =
    codes "["
    ++ (time ++ (codes "][" ++ (level_text level ++ (codes "] " ++ (message ++ codes "\n")))))

-- `hub_vlog`, and `hub_log` on top of it.
unfoldable pub vlog : Level → Text → Text → Log → Log
vlog level time message log =
    if ltb (level_number log.level) (level_number level)
    then log
    else record log { written = log.written ++ log_line level time message }
