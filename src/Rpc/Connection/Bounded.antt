-- ===== src/Rpc/Connection/Bounded.antt =====
-- rpc_connection.cpp: a read leaves no more gathered than the limit.
use supervisorcpp.Prelude.{
  ℕ, ◌+◌, ◌-◌, ◌≤◌, Bool, true, false, ◌++◌, Bytes, take, ltb, length, length-append, length-take,
  if◌then◌else◌, if-either, arith, inl, inr, Bool-cases, Option-cases,
}
use supervisorcpp.Rpc.Connection.{
  ReadError, no_error, end_of_file, other_error, Step, handle_read, handle_request, handle_headers,
  read_more, find_headers, content_length, reads_on, drops, too_large, processes, escapes,
  max_request_size, got_eof,
}

-- What is gathered or processed of so many bytes is not more than they are.
abbrev pub IsWithin : ℕ → Step → Type 0
IsWithin n (reads_on request) = length request ≤ n
IsWithin n (processes request) = length request ≤ n
IsWithin n _ = Unit

length-take_below : (n : ℕ) (l : Bytes) → length (take n l) ≤ length l
length-take_below n l = omega (arith, length-take n l)

handle_headers-IsWithin :
    (eof : Bool) (request : Bytes) (header_end body_offset : ℕ)
    → IsWithin (length request) (handle_headers eof request header_end body_offset)
unfolding handle_headers
handle_headers-IsWithin eof request header_end body_offset =
    elim (Option-cases (content_length (take header_end request))) [
      | inl e ↦ rw (e, handle_headers) tt
      | inr (n, e) ↦
          rw (e, handle_headers)
            (if-either (IsWithin (length request)) (ltb (length request - body_offset) n) _ _
              (go eof) (length-take_below (body_offset + n) request))
    ]
  where
    go : (b : Bool) → IsWithin (length request) (read_more b request)
    go true = tt
    go false = omega arith

handle_request-IsWithin :
    (eof : Bool) (request : Bytes) → IsWithin (length request) (handle_request eof request)
unfolding handle_request
handle_request-IsWithin eof request = elim (Option-cases (find_headers request)) [
  | inl e ↦ rw (e, handle_request) (go eof)
  | inr ((i, j), e) ↦ rw (e, handle_request) (handle_headers-IsWithin eof request i j)
]
  where
    go : (b : Bool) → IsWithin (length request) (read_more b request)
    go true = tt
    go false = omega arith

IsWithin-below : (m n : ℕ) (x : Step) → m ≤ n → IsWithin m x → IsWithin n x
IsWithin-below m n (reads_on r) h k = omega (arith, h, k)
IsWithin-below m n (processes r) h k = omega (arith, h, k)
IsWithin-below m n drops h k = tt
IsWithin-below m n too_large h k = tt
IsWithin-below m n escapes h k = tt

handle_appended-IsWithin :
    (eof : Bool) (received request : Bytes)
    → IsWithin max_request_size (
        if ltb max_request_size (length request + length received)
        then too_large
        else handle_request eof (request ++ received))
handle_appended-IsWithin eof received request =
    elim (Bool-cases (ltb max_request_size (length request + length received))) [
      | inl large ↦ rw large tt
      | inr fits ↦ rw fits (
          IsWithin-below (length (request ++ received)) max_request_size _
            (ground (arith, fits, length-append request received))
            (handle_request-IsWithin eof (request ++ received)))
    ]

pub handle_read-IsWithin :
    (error : ReadError) (received request : Bytes)
    → IsWithin max_request_size (handle_read error received request)
unfolding handle_read got_eof
handle_read-IsWithin no_error received request = handle_appended-IsWithin false received request
handle_read-IsWithin end_of_file received request = handle_appended-IsWithin true received request
handle_read-IsWithin other_error received request = tt
