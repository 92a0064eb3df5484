-- ===== src/Ctl/Http.antt =====
-- supervisorctl.h, `build_http_request_` and the reading of the response in `call_method_`.
use supervisorcpp.Prelude.{
  ℕ, ◌-◌, ◌||◌, [], ◌∷◌, ◌++◌, Option, none, some, ltb, ◌==◌, if◌then◌else◌, length, drop, take,
  Bytes, codes, begins, bytes_eq, stoull, decimal,
}
use supervisorcpp.Rpc.Connection.{blank_line}

-- The headers for a body of `n` bytes, without the blank line.
unfoldable pub request_headers : ℕ → Bytes
unfolding decimal
request_headers n =
    codes "POST /RPC2 HTTP/1.1\r\nContent-Type: text/xml\r\nContent-Length: "
    ++ (decimal n ++ codes "\r\nConnection: close")

unfoldable pub build_http_request : Bytes → Bytes
unfolding request_headers
build_http_request body = request_headers (length body) ++ (blank_line ++ body)

-- `content_length` behind one line of the headers; `none` where `stoull` throws.
unfoldable pub header_line : Bytes → ℕ → Option ℕ
unfolding begins stoull
header_line line content_length =
    if begins (codes "Content-Length:") line then stoull (drop 15 line) else some content_length

abbrev carriage_return : Bytes
carriage_return = 13 ∷ []

-- The loop over `getline`: the line so far, what is left of the stream, and `content_length`.
-- It gives the length and the stream behind the empty line.
unfoldable pub read_headers : Bytes → Bytes → ℕ → Option (ℕ × Bytes)
unfolding header_line
read_headers line [] n =
    if bytes_eq line [] || bytes_eq line carriage_return
    then some (n, [])
    else elim (header_line line n) [ none ↦ none | some n' ↦ some (n', []) ]
read_headers line (c ∷ r) n =
    let longer = read_headers (line ++ c ∷ []) r n in
    if c == 10
    then (if bytes_eq line carriage_return
        then some (n, r)
        else elim (header_line line n) [ none ↦ none | some n' ↦ read_headers [] r n' ])
    else longer

-- The body: first from the stream, and what it lacks from the socket, whose end is an error.
unfoldable pub read_body : ℕ → Bytes → Bytes → Option Bytes
read_body n stream socket =
    let read = take n stream in
    if ltb (length read) n
    then (if ltb (length socket) (n - length read)
        then none
        else some (read ++ take (n - length read) socket))
    else some read

-- The response, from what `read_until` left in the stream and what is still to come; `none` where
-- the code throws. A stream without `content_length` gives an empty text.
unfoldable pub read_response : Bytes → Bytes → Option Bytes
unfolding read_headers read_body
read_response stream socket = elim (read_headers [] stream 0) [
  | none ↦ none
  | some (n, r) ↦ read_body n r socket
]
