-- ===== src/Logger/Writer/Bounds.antt =====
-- log_writer.cpp: what the files hold after a call, and how large they grow.
use supervisorcpp.Prelude.{
  ℕ, ◌+◌, ◌≤◌, ◌<◌, max, true, ◌&&◌, [], ◌∷◌, ◌++◌, some, inl, inr, ◌≡◌, ◌⊎◌, refl, ap, ◌∙◌, arith,
  ltb, ◌==◌, Bool-cases, length, pos, take, length-append, take-append-drop, length-take,
  append_assoc, append-nil, Bytes,
}
use supervisorcpp.Logger.Writer.{
  Io, LogWriter, open_nl, flush_end, make_room, append_nl, rotate_nl, write_nl, write_open, write,
  flush, write_pending, or_empty, add_size, size_mod,
}
use supervisorcpp.Logger.Writer.Rotation.{IsFaultless, rotate_nl-fresh}

-- The text of the log file.
abbrev pub log_text : LogWriter → Bytes
log_text w = or_empty w.disk.logfile

-- The log file is open and `current_size_` is its size.
pub record IsAccurate (w : LogWriter) : Type 0 where
  pub opened : w.is_open ≡ true
  pub there : w.disk.logfile ≡ some (log_text w)
  pub size_is : w.current_size ≡ length (log_text w)

-- The chunk went behind the text of the log, or the log was rotated and holds the chunk alone.
abbrev pub Appended : LogWriter → LogWriter → Bytes → Type 0
Appended w w' str =
    (log_text w' ≡ log_text w ++ str)
    ⊎ ((0 < w.max_bytes) × (w'.disk.backup 1 ≡ some (log_text w)) × (log_text w' ≡ str))

append_nl-text :
    (io : Io) (w : LogWriter) (str : Bytes)
    → IsFaultless io
    → w.is_open ≡ true
    → (log_text (append_nl io w str).0 ≡ log_text w ++ str)
      × ((append_nl io w str).0.disk.backup ≡ w.disk.backup)
      × ((append_nl io w str).0.current_size ≡ add_size w.current_size (length str))
      × ((append_nl io w str).1 ≡ pos (length str))
unfolding append_nl
append_nl-text io w str h o = rw (o, h.writes, append_nl) (refl, refl, refl, refl)

write_nl_steps :
    (io : Io) (w : LogWriter) (str : Bytes)
    → write_nl io w str ≡ append_nl io (make_room io w str) str
unfolding write_nl
write_nl_steps io w str = refl

-- Room is there already, or it is made.
make_room_cases :
    (io : Io) (w : LogWriter) (str : Bytes)
    → ((make_room io w str ≡ w)
        × ((w.max_bytes ≡ 0) ⊎ (add_size w.current_size (length str) ≤ w.max_bytes)))
      ⊎ ((make_room io w str ≡ rotate_nl io w) × (0 < w.max_bytes))
unfolding make_room
make_room_cases io w str =
    elim (Bool-cases
      (ltb 0 w.max_bytes && ltb w.max_bytes (add_size w.current_size (length str)))) [
        | inl e ↦ rw (e, make_room) (inr (refl, ground arith))
        | inr e ↦ rw (e, make_room) (inl (refl, ground arith))
      ]

write_nl-Appended :
    (io : Io) (w : LogWriter) (str : Bytes)
    → IsFaultless io
    → IsAccurate w
    → Appended w (write_nl io w str).0 str
write_nl-Appended io w str h a = rw write_nl_steps (elim (make_room_cases io w str) [
  | inl (same, _) ↦ rw same (inl (append_nl-text io w str h a.opened).0)
  | inr (made, limited) ↦
      let fresh = rotate_nl-fresh io w (log_text w) h a.there in
      let text = append_nl-text io (rotate_nl io w) str h fresh.0 in
      rw made (inr (limited, ap (λ f. f 1) text.1 ∙ fresh.3, text.0 ∙ rw fresh.2 refl))
])

-- With a limit, no failing call, an exact `current_size_` and sizes below 2 ^ 64, a write leaves the
-- log no larger than `max_bytes` or than the chunk, whichever is more.
pub write_nl-bounded :
    (io : Io) (w : LogWriter) (str : Bytes)
    → IsFaultless io
    → IsAccurate w
    → 0 < w.max_bytes
    → length (log_text w) + length str < size_mod
    → length (log_text (write_nl io w str).0) ≤ max w.max_bytes (length str)
write_nl-bounded io w str h a limited fits = rw write_nl_steps (elim (make_room_cases io w str) [
  | inl (same, room) ↦
      rw (same, (append_nl-text io w str h a.opened).0)
        (omega (arith, a.size_is, length-append (log_text w) str))
  | inr (made, _) ↦
      let fresh = rotate_nl-fresh io w (log_text w) h a.there in
      let text = append_nl-text io (rotate_nl io w) str h fresh.0 in
      rw (made, text.0, fresh.2) (omega arith)
])

write_nl-kept :
    (io : Io) (w : LogWriter) (str : Bytes)
    → IsFaultless io
    → IsAccurate w
    → length (log_text w) + length str < size_mod
    → IsAccurate (write_nl io w str).0
unfolding append_nl rotate_nl
write_nl-kept io w str h a fits = rw write_nl_steps (elim (make_room_cases io w str) [
  | inl (same, _) ↦
      rw (same, h.writes, a.opened, append_nl)
        (record {
          opened = refl;
          there = refl;
          size_is = omega (arith, a.size_is, length-append (log_text w) str);
        })
  | inr (made, _) ↦
      let fresh = rotate_nl-fresh io w (log_text w) h a.there in
      rw (made, h.writes, fresh.0, append_nl)
        (record { opened = refl; there = refl; size_is = rw (fresh.1, fresh.2) (omega arith) })
])

-- The bytes of the log and of the pending buffer, in the order in which they came in.
abbrev pub stream : LogWriter → Bytes
stream w = log_text w ++ w.pending_buffer

-- The stream grew by the chunk; or the log was rotated away whole, and the stream restarts with
-- what was pending.
abbrev pub Streamed : LogWriter → LogWriter → Bytes → Type 0
Streamed w w' chunk =
    (stream w' ≡ log_text w ++ (w.pending_buffer ++ chunk))
    ⊎ ((0 < w.max_bytes)
        × (w'.disk.backup 1 ≡ some (log_text w))
        × (stream w' ≡ w.pending_buffer ++ chunk))

cut-Streamed :
    (io : Io) (w : LogWriter) (chunk : Bytes)
    → IsFaultless io
    → IsAccurate w
    → length (log_text w) + (length w.pending_buffer + length chunk) < size_mod
    → IsAccurate (write_open io w chunk).0 × Streamed w (write_open io w chunk).0 chunk
unfolding write_open
cut-Streamed io w chunk h a fits = elim (Bool-cases (flush_end w.pending_buffer chunk == 0)) [
  | inl e ↦
      rw (e, write_open)
        (record { opened = a.opened; there = a.there; size_is = a.size_is }, inl refl)
  | inr e ↦
      let whole = w.pending_buffer ++ chunk in
      let cut = flush_end w.pending_buffer chunk in
      let w₀ = record w { pending_buffer = whole } in
      let a₀ : IsAccurate w₀ = record { opened = a.opened; there = a.there; size_is = a.size_is } in
      let kept =
        write_nl-kept io w₀ (take cut whole) h a₀
          (omega (arith, length-take cut whole, length-append w.pending_buffer chunk)) in
      rw (e, write_open)
        (
          record { opened = kept.opened; there = kept.there; size_is = kept.size_is },
          (elim (write_nl-Appended io w₀ (take cut whole) h a₀) [
            | inl t ↦ inl (
                rw (t, append_assoc (log_text w))
                  (ap (◌++◌ (log_text w)) (take-append-drop cut whole)))
            | inr t ↦ inr (t.0, t.1, rw t.2 (take-append-drop cut whole))
          ]),
        )
]

pub write-when_open :
    (io : Io) (w : LogWriter) (c : ℕ) (cs : Bytes)
    → w.is_open ≡ true
    → write io w (c ∷ cs) ≡ write_open io w (c ∷ cs)
unfolding write
write-when_open io w c cs o = ground arith

-- With the file open, no failing call and sizes below 2 ^ 64, `write` keeps an exact `current_size_`
-- exact and loses,
-- repeats and reorders no byte: log and pending buffer together grow by the new data, or the whole
-- old log became `logfile.1`, which takes a limit, and they restart with what was pending, then
-- the new data.
pub write-Streamed :
    (io : Io) (w : LogWriter) (chunk : Bytes)
    → IsFaultless io
    → IsAccurate w
    → length (log_text w) + (length w.pending_buffer + length chunk) < size_mod
    → IsAccurate (write io w chunk).0 × Streamed w (write io w chunk).0 chunk
unfolding write
write-Streamed io w [] h a fits = (a, inl (rw append-nil))
write-Streamed io w (c ∷ cs) h a fits =
    rw (write-when_open io w c cs a.opened) (cut-Streamed io w (c ∷ cs) h a fits)

-- With no failing call, `flush` puts what is pending behind the log.
pub flush-stream :
    (io : Io) (w : LogWriter)
    → IsFaultless io
    → IsAccurate w
    → (log_text (flush io w) ≡ stream w) × ((flush io w).pending_buffer ≡ [])
unfolding flush write_pending
flush-stream io w h a = ground (arith, append-nil (log_text w))

-- A write does not touch the settings.
pub write-max_bytes :
    (io : Io) (w : LogWriter) (chunk : Bytes) → (write io w chunk).0.max_bytes ≡ w.max_bytes
unfolding write write_open open_nl write_nl make_room append_nl rotate_nl
write-max_bytes io w chunk = ground arith
