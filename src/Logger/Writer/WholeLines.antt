-- ===== src/Logger/Writer/WholeLines.antt =====
-- log_writer.cpp, `write_line`: what stands in the log and in the pending buffer after it.
use supervisorcpp.Prelude.{[], ◌∷◌, ◌++◌, if◌then◌else◌, Bytes}
use supervisorcpp.Logger.Writer.{needs_newline}

-- The line as `write_line` writes it.
abbrev pub with_newline : Bytes → Bytes
with_newline line = if needs_newline line then line ++ b'\n' ∷ [] else line
