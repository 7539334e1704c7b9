-- ===== src/HubLog/Tests.antt =====
-- What is written at two levels.
use plat.Base.{◌≡◌, refl}
use plat.Base.Text.{codes}
use plat.HubLog.{error, info, debug, fresh_log, set_level, vlog, level_number, log_line, level_text}

silent : vlog debug (codes "now") (codes "tick") fresh_log ≡ fresh_log
unfolding vlog fresh_log level_number
silent = refl

noted :
    vlog info (codes "now") (codes "up") fresh_log
    ≡ record fresh_log { written = codes "[now][I] up\n" }
unfolding vlog fresh_log level_number log_line level_text
noted = refl

only_errors :
    (vlog error
      (codes "now")
      (codes "down")
      (vlog info (codes "now") (codes "up") (set_level error fresh_log))).written
    ≡ codes "[now][E] down\n"
unfolding vlog fresh_log level_number log_line level_text set_level
only_errors = refl
