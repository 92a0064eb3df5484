-- ===== src/Logger/Writer/Lines.antt =====
-- log_writer.cpp, `write`: where the pending buffer is cut.
use supervisorcpp.Prelude.{
  ℕ, zero, suc, ◌+◌, ◌≤◌, ◌<◌, [], ◌∷◌, ◌++◌, none, some, inl, inr, ◌≡◌, refl, ◌∙◌, arith, leb,
  ◌==◌, ==_iff, if◌then◌else◌, Bool-cases, Option-cases, length, drop, length-append, drop-append,
  drop_all, length-drop, Bytes,
}
use supervisorcpp.Logger.Writer.{
  Io, LogWriter, rfind, max_pending_buffer, open_nl, flush_end, write_open, write,
}

-- The cut as the comment in `write` explains it: behind the last newline of the whole buffer.
unfoldable pub whole_flush_end : Bytes → ℕ
unfolding rfind
whole_flush_end whole = elim (rfind b'\n' whole) [
  | some i ↦ i + 1
  | none ↦ if leb max_pending_buffer (length whole) then length whole else 0
]

-- What the pending buffer may hold between two calls.
pub record IsPending (b : Bytes) : Type 0 where
  pub no_newline : rfind b'\n' b ≡ none
  pub bounded : length b < max_pending_buffer

rfind-append :
    (c : ℕ) (xs ys : Bytes)
    → rfind c (xs ++ ys) ≡ (elim (rfind c ys) [ some i ↦ some (length xs + i) | none ↦ rfind c xs ])
unfolding rfind
rfind-append c [] ys = ground (arith, Option-cases (rfind c ys))
rfind-append c (x ∷ xs) ys = ground (arith, rfind-append c xs ys)

pub rfind-lt-length : (c : ℕ) (xs : Bytes) {i : ℕ} → rfind c xs ≡ some i → i < length xs
unfolding rfind
rfind-lt-length c [] h = cc
rfind-lt-length c (x ∷ xs) h = elim (Option-cases (rfind c xs)) [
  | inl e ↦ ground (arith, e)
  | inr (j, e) ↦ ground (arith, e, rfind-lt-length c xs e)
]

-- Nothing is left behind the last occurrence.
rfind-drop : (c : ℕ) (xs : Bytes) {i : ℕ} → rfind c xs ≡ some i → rfind c (drop (suc i) xs) ≡ none
unfolding rfind
rfind-drop c [] h = cc
rfind-drop c (x ∷ xs) {i = zero} h = ground (arith, Option-cases (rfind c xs))
rfind-drop c (x ∷ xs) {i = suc i} h = rfind-drop c xs (ground (arith, Option-cases (rfind c xs)))

-- While the pending buffer holds no newline and less than 64 KB, searching only the new data finds
-- the same cut as searching the whole buffer.
pub flush_end-whole :
    (pending chunk : Bytes)
    → IsPending pending
    → flush_end pending chunk ≡ whole_flush_end (pending ++ chunk)
unfolding flush_end whole_flush_end
flush_end-whole pending chunk h =
    ground (arith, rfind-append b'\n' pending chunk, h.no_newline, Option-cases (rfind b'\n' chunk))

-- The cut lies within the buffer.
pub flush_end-le : (pending chunk : Bytes) → flush_end pending chunk ≤ length (pending ++ chunk)
unfolding flush_end
flush_end-le pending chunk = elim (Option-cases (rfind b'\n' chunk)) [
  | inl e ↦ rw (e, flush_end) (ground arith)
  | inr (i, e) ↦
      rw (e, flush_end) (omega (arith, rfind-lt-length b'\n' chunk e, length-append pending chunk))
]

-- What stays behind the cut.
kept_line :
    (pending chunk : Bytes) (i : ℕ)
    → rfind b'\n' chunk ≡ some i
    → flush_end pending chunk ≡ length pending + suc i
unfolding flush_end
kept_line pending chunk i e = rw (e, flush_end) (omega arith)

kept_none :
    (pending chunk : Bytes)
    → rfind b'\n' chunk ≡ none
    → flush_end pending chunk ≡ (
        if leb max_pending_buffer (length (pending ++ chunk)) then length (pending ++ chunk) else 0)
unfolding flush_end
kept_none pending chunk e = rw (e, flush_end) refl

kept-IsPending :
    (pending chunk : Bytes)
    → IsPending pending
    → length chunk ≤ max_pending_buffer
    → IsPending (drop (flush_end pending chunk) (pending ++ chunk))
unfolding rfind
kept-IsPending pending chunk h fits = elim (Option-cases (rfind b'\n' chunk)) [
  | inr (i, e) ↦
      rw (kept_line pending chunk i e, drop-append pending chunk (suc i))
        (record {
          no_newline = rfind-drop b'\n' chunk e;
          bounded = omega (arith, length-drop (suc i) chunk, rfind-lt-length b'\n' chunk e);
        })
  | inl e ↦
      rw (kept_none pending chunk e)
        (elim (Bool-cases (leb max_pending_buffer (length (pending ++ chunk)))) [
          | inl full ↦
              rw (full, drop_all (length (pending ++ chunk)) (pending ++ chunk) (omega arith))
                (record { no_newline = refl; bounded = omega arith })
          | inr small ↦ rw small (record {
            no_newline = rfind-append b'\n' pending chunk ∙ rw e h.no_newline;
            bounded = ground arith;
          })
        ])
]

pub write_open-pending :
    (io : Io) (w : LogWriter) (chunk : Bytes)
    → (write_open io w chunk).0.pending_buffer
      ≡ drop (flush_end w.pending_buffer chunk) (w.pending_buffer ++ chunk)
unfolding write_open
write_open-pending io w chunk = elim (Bool-cases (flush_end w.pending_buffer chunk == 0)) [
  | inl e ↦ rw (e, (==_iff _ _).0 e)
  | inr e ↦ rw e
]

-- Whatever the file system answers, between two calls of `write` the pending buffer holds no
-- newline and less than 64 KB, provided that no call brings more than 64 KB.
pub write-IsPending :
    (io : Io) (w : LogWriter) (chunk : Bytes)
    → length chunk ≤ max_pending_buffer
    → IsPending w.pending_buffer
    → IsPending (write io w chunk).0.pending_buffer
unfolding write open_nl
write-IsPending io w chunk fits h = ground (
  arith,
  write_open-pending io w chunk,
  write_open-pending io (open_nl io w).0 chunk,
  kept-IsPending w.pending_buffer chunk h fits,
)
