-- ===== src/Logger/Names.antt =====
-- log_levels.cpp: the names of the levels, as they are printed and read.
use supervisorcpp.Prelude.{Bytes, codes, lower, bytes_eq, ◌≡◌, refl}
use supervisorcpp.Util.Secure.{valid}
use supervisorcpp.Config.Types.{LogLevel, trace, debug, info, warn, error, ignore}
use supervisorcpp.Config.Values.{parse_log_level}

-- `operator<<`; a value outside of the enumeration is no level.
unfoldable pub level_name : LogLevel → Bytes
level_name trace = codes "trace"
level_name debug = codes "debug"
level_name info = codes "info"
level_name warn = codes "warn"
level_name error = codes "error"
level_name ignore = codes "ignore"

-- What is printed of a level is read as it.
parse_log_level-level_name : (level : LogLevel) → parse_log_level (level_name level) ≡ valid level
unfolding parse_log_level level_name lower bytes_eq
parse_log_level-level_name trace = refl
parse_log_level-level_name debug = refl
parse_log_level-level_name info = refl
parse_log_level-level_name warn = refl
parse_log_level-level_name error = refl
parse_log_level-level_name ignore = refl
