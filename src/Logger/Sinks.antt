-- ===== src/Logger/Sinks.antt =====
-- logger.cpp, `init_logging` and `init_file_logging`: the levels of the sinks that are set up. The
-- sinks themselves are Boost.Log's.
use supervisorcpp.Prelude.{Bool, true, false, not, if◌then◌else◌, Bytes}
use supervisorcpp.Config.Types.{LogLevel}
use supervisorcpp.Logger.Levels.{Levels, set_level}
use supervisorcpp.Logger.Writer.{is_empty}

unfoldable pub init_logging : LogLevel → Levels → Levels
unfolding set_level
init_logging level l = record l { console_sev = (set_level level l.console_sev).0 }

-- The levels, and whether it returns; `opens` is whether Boost.Log opens the file.
unfoldable pub init_file_logging : Bool → Bytes → LogLevel → Levels → Levels × Bool
unfolding set_level
init_file_logging opens logfile level l =
    if is_empty logfile
    then (l, true)
    else if not opens
    then (l, false)
    else (record l { file_sev = (set_level level l.file_sev).0 }, true)
