-- ===== src/Tests/Writers.antt =====
-- The log writer.
use supervisorcpp.Prelude.{
  ℕ, ◌≤◌, ◌++◌, max, true, [], ◌∷◌, some, pos, codes, ◌≡◌, refl, arith, length, Bytes,
}
use supervisorcpp.Logger.Writer.{LogWriter, write, write_nl, rotate_nl, flush_end, rfind}
use supervisorcpp.Logger.Writer.Bounds.{
  write-Streamed, write_nl-bounded, IsAccurate, Streamed, log_text,
}
use supervisorcpp.Logger.Writer.Lines.{flush_end-whole, whole_flush_end, write-IsPending, IsPending}
use supervisorcpp.Logger.Writer.Rotation.{rotate_nl-rotated, rotated}
use supervisorcpp.Tests.Data.{faultless, faultless-IsFaultless, writer, writer-IsAccurate}

abbrev line : Bytes
line = codes "c" ++ b'\n' ∷ []

write-Streamed_example :
    IsAccurate (write faultless writer line).0
    × Streamed writer (write faultless writer line).0 line
write-Streamed_example =
    write-Streamed faultless writer line faultless-IsFaultless writer-IsAccurate (omega arith)

write_nl-bounded_example :
    length (log_text (write_nl faultless writer line).0) ≤ max writer.max_bytes (length line)
write_nl-bounded_example =
    write_nl-bounded faultless writer line faultless-IsFaultless writer-IsAccurate (omega arith)
      (omega arith)

ab-IsPending : IsPending (codes "ab")
unfolding rfind
ab-IsPending = record { no_newline = refl; bounded = omega arith }

flush_end-whole_example : flush_end (codes "ab") line ≡ whole_flush_end (codes "ab" ++ line)
flush_end-whole_example = flush_end-whole (codes "ab") line ab-IsPending

write-IsPending_example : IsPending (write faultless writer line).0.pending_buffer
write-IsPending_example = write-IsPending faultless writer line (omega arith) ab-IsPending

rotate_nl-rotated_example :
    ((rotate_nl faultless writer).is_open ≡ true)
    × ((rotate_nl faultless writer).current_size ≡ 0)
    × ((rotate_nl faultless writer).disk.logfile ≡ some [])
    × ((j : ℕ) → (rotate_nl faultless writer).disk.backup j ≡ rotated 1 writer.disk j)
rotate_nl-rotated_example = rotate_nl-rotated faultless writer 1 faultless-IsFaultless refl

abbrev no_backups : LogWriter
no_backups = record writer { backups = pos 0 }
