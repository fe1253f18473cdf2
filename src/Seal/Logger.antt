-- ===== src/Seal/Logger.antt =====
-- setupLogger of cmd/seal/cli.go
use podlock.Prelude.{Text, ◌==◌, text_eq, if◌then◌else◌}
use podlock.Fallible.{Result, ok, ◌>>=◌}
use podlock.Levels.{Level, level_debug, parse_log_level}
use podlock.Seal.Config.{log_format_text}

-- The handler of the logger, with its least level.
pub data LogHandler : Type 0 where
  tint_handler : Level → LogHandler
  json_handler : Level → LogHandler

-- An error stands for an exit with status 1. The level is read in either format, but the text
-- format does not use it.
unfoldable pub setup_logger : Text → Text → Result LogHandler
setup_logger log_level log_format = parse_log_level log_level >>= λ level.
    if log_format == log_format_text then ok (tint_handler level_debug) else ok (json_handler level)
