-- ===== src/Process/Capture.antt =====
-- process.cpp, `start_stdout_read_` and `handle_stdout_read_`: the child's output into its log.
-- The functions for stderr are the same over the other stream and writer, so both are modelled
-- by one over a `Capture`.
use supervisorcpp.Prelude.{
  ℕ, ◌+◌, ◌<◌, Bool, true, false, List, [], ◌∷◌, ◌++◌, Option, none, some, if◌then◌else◌, length,
  length-append, append_assoc, append-nil, Bytes, ◌≡◌, inl, inr, refl, sym, ap, ◌∙◌, arith, All,
}
use supervisorcpp.Logger.Writer.{Io, LogWriter, write, flush, is_empty, size_mod}
use supervisorcpp.Logger.Writer.Rotation.{IsFaultless}
use supervisorcpp.Logger.Writer.Bounds.{
  IsAccurate, log_text, stream, write-Streamed, Streamed, flush-stream, write-max_bytes,
}

-- One of the two outputs: its stream, if it is open, and its log writer.
pub record Capture : Type 0 where
  pub fd : Option ℕ
  pub log_writer : Option LogWriter

-- How an `async_read_some` completes.
pub data Completion : Type 0 where
  received : Bytes → Completion
  end_of_file aborted broken : Completion

abbrev is_open_stream : Option ℕ → Bool
is_open_stream none = false
is_open_stream (some _) = true

-- `start_stdout_read_`: whether a read is begun.
unfoldable pub start_read : Capture → Bool
start_read c = is_open_stream c.fd

abbrev map_writer : (LogWriter → LogWriter) → Capture → Capture
map_writer f c = elim c.log_writer [ none ↦ c | some w ↦ record c { log_writer = some (f w) } ]

-- The error branch: the stream is closed and the writer flushed.
unfoldable pub close_read : Io → Capture → Capture × Bool
close_read io c = (map_writer (flush io) (record c { fd = none }), false)

-- `handle_stdout_read_`: the new state, and whether a read is begun again.
unfoldable pub handle_read : Io → Completion → Capture → Capture × Bool
unfolding close_read start_read
handle_read io (received bytes) c =
    let c' = if is_empty bytes then c else map_writer (λ w. (write io w bytes).0) c in
    (c', start_read c')
handle_read io end_of_file c = close_read io c
handle_read io aborted c = close_read io c
handle_read io broken c = close_read io c

-- Successive completed reads, each with the answers of the file system, and the end of the file.
unfoldable pub read_to_end : List (Io × Bytes) → Io → Capture → Capture
unfolding handle_read
read_to_end [] io c = (handle_read io end_of_file c).0
read_to_end ((i, bytes) ∷ r) io c = read_to_end r io (handle_read i (received bytes) c).0

abbrev pub concat : List (Io × Bytes) → Bytes
concat [] = []
concat ((_, bytes) ∷ r) = bytes ++ concat r

abbrev pub FaultlessRead : Io × Bytes → Type 0
FaultlessRead x = IsFaultless x.0

-- The log once the child has closed its end.
abbrev pub HoldsAll : Capture → Bytes → Type 0
HoldsAll c text =
    (w : LogWriter) × (c.log_writer ≡ some w)
    × (log_text w ≡ text)
    × (w.pending_buffer ≡ [])
    × (c.fd ≡ none)

unlimited-stream :
    (w w' : LogWriter) (chunk : Bytes)
    → Streamed w w' chunk
    → w.max_bytes ≡ 0
    → stream w' ≡ stream w ++ chunk
unlimited-stream w w' chunk (inl t) unlimited =
    t ∙ sym (append_assoc (log_text w) w.pending_buffer chunk)
unlimited-stream w w' chunk (inr t) unlimited = absurd (omega (arith, t.0))

-- With no limit on the size, no failing call and less than 2 ^ 64 bytes, all that the child wrote
-- stands in the log once it has closed its end: behind the old text and what was pending, whole and
-- in order, with nothing pending and the stream closed.
pub read_to_end-concat :
    (l : List (Io × Bytes)) (io : Io) (w : LogWriter) (fd : Option ℕ)
    → All FaultlessRead l
    → IsFaultless io
    → w.max_bytes ≡ 0
    → IsAccurate w
    → length (log_text w) + (length w.pending_buffer + length (concat l)) < size_mod
    → HoldsAll (read_to_end l io (record { fd = fd; log_writer = some w })) (stream w ++ concat l)
unfolding read_to_end
read_to_end-concat [] io w fd all h unlimited a fits =
    let flushed = flush-stream io w h a in
    (flush io w, refl, flushed.0 ∙ sym (append-nil (stream w)), flushed.1, refl)
read_to_end-concat ((i, []) ∷ r) io w fd all h unlimited a fits =
    read_to_end-concat r io w fd all.1 h unlimited a fits
read_to_end-concat ((i, b ∷ bytes) ∷ r) io w fd all h unlimited a fits =
    let w' = (write i w (b ∷ bytes)).0 in
    let done =
      write-Streamed i w (b ∷ bytes) all.0 a
        (omega (arith, length-append (b ∷ bytes) (concat r))) in
    let grown : stream w' ≡ stream w ++ b ∷ bytes =
      unlimited-stream w w' (b ∷ bytes) done.1 unlimited in
    let total = ap length grown in
    let rest =
      read_to_end-concat r io w' fd all.1 h (write-max_bytes i w (b ∷ bytes) ∙ unlimited) done.0 (
        omega (
          arith,
          total,
          length-append (log_text w') w'.pending_buffer,
          length-append (stream w) (b ∷ bytes),
          length-append (log_text w) w.pending_buffer,
          length-append (b ∷ bytes) (concat r),
        )) in
    let text = ap (λ s. s ++ concat r) grown ∙ append_assoc (stream w) (b ∷ bytes) (concat r) in
    (rest.0, rest.1, rest.2 ∙ text, rest.3, rest.4)
