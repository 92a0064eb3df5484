-- ===== src/Rpc/Connection.antt =====
-- rpc/rpc_connection.cpp: a connection, from the bytes that come in to the response.
-- A completed read is a step; `async_read_some` and `async_write` are what the step asks for next.
pub mod Framing
pub mod Numbers
pub mod Lifetime
pub mod Bounded
pub mod OneAnswer
use supervisorcpp.Prelude.{
  ℕ, ◌+◌, ◌-◌, Bool, true, false, ◌||◌, List, [], ◌∷◌, ◌++◌, Option, none, some, ltb, ◌==◌,
  if◌then◌else◌, length, take, drop, ℤ, pos, Bytes, codes, lower, find_from, stoull, decimal,
  bytes_eq, Tried, returns, throws, rethrow, ◌>>=◌,
}
use supervisorcpp.PropertyTree.{PropertyTree}
use supervisorcpp.Rpc.Xmlrpc.{int, text, show_struct}
use supervisorcpp.Rpc.Server.{Reply, result, fault}

abbrev pub crlf : Bytes
crlf = 13 ∷ 10 ∷ []

abbrev pub blank_line : Bytes
blank_line = 13 ∷ 10 ∷ 13 ∷ 10 ∷ []

abbrev pub bare_blank_line : Bytes
bare_blank_line = 10 ∷ 10 ∷ []

-- `constexpr size_t MAX_REQUEST_SIZE`.
abbrev pub max_request_size : ℕ
max_request_size = 1048576

-- `header_end` and `body_offset`.
unfoldable pub find_headers : Bytes → Option (ℕ × ℕ)
unfolding find_from
find_headers request = elim (find_from blank_line request) [
  | some i ↦ some (i, i + 4)
  | none ↦ elim (find_from bare_blank_line request) [ some i ↦ some (i, i + 2) | none ↦ none ]
]

-- `find_first_not_of(" \t", ...)`.
unfoldable pub skip_blanks : Bytes → Bytes
skip_blanks [] = []
skip_blanks (c ∷ r) = if c == b' ' || c == 9 then skip_blanks r else c ∷ r

-- Up to `find_first_of("\r\n", ...)`.
unfoldable pub up_to_line_end : Bytes → Bytes
up_to_line_end [] = []
up_to_line_end (c ∷ r) = if c == 13 || c == 10 then [] else c ∷ up_to_line_end r

-- The number behind the name of the header; `throws` where `stoull` does.
unfoldable pub header_number : Bytes → Option ℕ
unfolding skip_blanks up_to_line_end stoull
header_number after_name = elim (skip_blanks after_name) [
  | [] ↦ some 0
  | c ∷ r ↦ stoull (up_to_line_end (c ∷ r))
]

abbrev pub content_length_name : Bytes
content_length_name = codes "content-length:"

-- `content_length`; `none` where `stoull` throws.
unfoldable pub content_length : Bytes → Option ℕ
unfolding find_from header_number
content_length headers = elim (find_from content_length_name (lower headers)) [
  | none ↦ some 0
  | some i ↦ header_number (drop (i + 15) headers)
]

-- How a read completes.
pub data ReadError : Type 0 where
  no_error end_of_file other_error : ReadError

-- What `handle_read_` does next.
pub data Step : Type 0 where
  -- Reads on, with this text gathered in `request_data_`.
  reads_on : Bytes → Step
  -- Returns and reads no more, which drops the connection.
  drops : Step
  -- Answers that the request is too large.
  too_large : Step
  -- Calls `process_request_`.
  processes : Bytes → Step
  -- An exception leaves the handler.
  escapes : Step

unfoldable pub got_eof : ReadError → Bool
got_eof end_of_file = true
got_eof _ = false

abbrev pub read_more : Bool → Bytes → Step
read_more eof request = if eof then drops else reads_on request

-- `handle_read_` behind the search for the headers.
unfoldable pub handle_headers : Bool → Bytes → ℕ → ℕ → Step
handle_headers eof request header_end body_offset =
    elim (content_length (take header_end request)) [
      | none ↦ escapes
      | some n ↦
          if ltb (length request - body_offset) n
          then read_more eof request
          else processes (take (body_offset + n) request)
    ]

-- `handle_read_` behind the append.
unfoldable pub handle_request : Bool → Bytes → Step
unfolding find_headers handle_headers
handle_request eof request = elim (find_headers request) [
  | none ↦ read_more eof request
  | some (header_end, body_offset) ↦ handle_headers eof request header_end body_offset
]

unfoldable pub handle_read : ReadError → Bytes → Bytes → Step
unfolding got_eof handle_request
handle_read other_error received request = drops
handle_read error received request =
    if ltb max_request_size (length request + length received)
    then too_large
    else handle_request (got_eof error) (request ++ received)

-- Reads without an error, one after the other, as long as the connection asks for them.
unfoldable pub read_all : List Bytes → Bytes → Step
unfolding handle_read
read_all [] request = reads_on request
read_all (received ∷ r) request = elim (handle_read no_error received request) [
  | reads_on request' ↦ read_all r request'
  | other ↦ other
]

-- The body that `process_request_` cuts out; `none` where there are no headers.
unfoldable pub request_body : Bytes → Option Bytes
unfolding find_headers
request_body request = elim (find_headers request) [
  | none ↦ none
  | some (_, body_start) ↦ some (drop body_start request)
]

unfoldable pub generate_xmlrpc_response : Bytes → Bytes
generate_xmlrpc_response reply =
    codes "<?xml version=\"1.0\"?>\n<methodResponse>\n  <params>\n    <param><value>"
    ++ (reply ++ codes "</value></param>\n  </params>\n</methodResponse>\n")

unfoldable pub generate_xmlrpc_fault : (ℤ → Bytes) → ℤ → Bytes → Bytes
unfolding show_struct
generate_xmlrpc_fault show code message =
    codes "<?xml version=\"1.0\"?>\n<methodResponse>\n  <fault>\n    <value>"
    ++ (show_struct show (
          record { name = codes "faultCode"; value = int code }
          ∷ record { name = codes "faultString"; value = text message }
          ∷ [])
        ++ codes "</value>\n  </fault>\n</methodResponse>\n")

unfoldable pub response_headers : ℕ → Bytes
unfolding decimal
response_headers n =
    codes "HTTP/1.1 200 OK\r\nContent-Type: text/xml\r\nContent-Length: "
    ++ (decimal n ++ codes "\r\nConnection: close")

unfoldable pub generate_http_response : Bytes → Bytes
unfolding response_headers
generate_http_response body = response_headers (length body) ++ (blank_line ++ body)

-- The fault for a request that is too large.
unfoldable pub too_large_response : (ℤ → Bytes) → Bytes
unfolding generate_xmlrpc_fault generate_http_response
too_large_response show =
    generate_http_response
      (generate_xmlrpc_fault show (pos 1) (codes "Request too large (max 1MB)"))

-- The body for what a handler returned or threw.
unfoldable pub reply_body : (ℤ → Bytes) → Reply → Bytes
unfolding generate_xmlrpc_response generate_xmlrpc_fault
reply_body show (result r) = generate_xmlrpc_response r
reply_body show (fault what) = generate_xmlrpc_fault show (pos 1) what

-- The XML of a call.
module _ (t : PropertyTree) where
  open t use {Tree, read_xml, get_child_optional, get_string, get_int, children, bad_path}

  -- The value of one `param`; `none` where it has none that is understood.
  unfoldable pub param_value : (ℤ → Bytes) → Tree → Option Bytes
  param_value show param = elim (get_string (codes "value.string") param) [
    | some s ↦ some s
    | none ↦ elim (get_int (codes "value.int") param) [
      | some i ↦ some (show i)
      | none ↦ get_string (codes "value") param
    ]
  ]

  unfoldable pub param_values : (ℤ → Bytes) → List (Bytes × Tree) → List Bytes
  unfolding param_value
  param_values show [] = []
  param_values show ((key, node) ∷ r) =
      let rest = param_values show r in
      if bytes_eq key (codes "param")
      then elim (param_value show node) [ some v ↦ v ∷ rest | none ↦ rest ]
      else rest

  -- The method and the parameters of a tree.
  unfoldable pub read_call : (ℤ → Bytes) → Tree → Tried (Bytes × List Bytes)
  unfolding param_values
  read_call show tree = elim (get_string (codes "methodCall.methodName") tree) [
    | none ↦ throws (bad_path (codes "methodCall.methodName"))
    | some method ↦ elim (get_child_optional (codes "methodCall.params") tree) [
      | none ↦ returns (method, [])
      | some params ↦ returns (method, param_values show (children params))
    ]
  ]

  unfoldable pub parse_xmlrpc_request : (ℤ → Bytes) → Bytes → Tried (Bytes × List Bytes)
  unfolding read_call
  parse_xmlrpc_request show xml =
      rethrow (λ what. codes "Failed to parse XML-RPC request: " ++ what)
        (read_xml xml >>= read_call show)

  -- The `try` block of `process_request_`: the state of the dispatcher, and the body of the response.
  unfoldable pub answer :
      {S : Type 0} → (ℤ → Bytes) → (Bytes → List Bytes → S → S × Reply) → Bytes → S → S × Bytes
  unfolding request_body parse_xmlrpc_request reply_body
  answer show dispatch request s = elim (request_body request) [
    | none ↦ (s, generate_xmlrpc_fault show (pos 1) (codes "Invalid HTTP request"))
    | some xml ↦ elim (parse_xmlrpc_request show xml) [
      | throws what ↦ (s, generate_xmlrpc_fault show (pos 1) what)
      | returns (method, params) ↦
          let (s', reply) = dispatch method params s in (s', reply_body show reply)
    ]
  ]

  -- `process_request_`: exactly one response is written, and then the connection is closed.
  unfoldable pub process_request :
      {S : Type 0} → (ℤ → Bytes) → (Bytes → List Bytes → S → S × Reply) → Bytes → S → S × Bytes
  unfolding answer generate_http_response
  process_request show dispatch request s =
      let (s', body) = answer show dispatch request s in (s', generate_http_response body)
