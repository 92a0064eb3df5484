-- ===== src/Tests/Connections.antt =====
-- Requests and responses between the control program and the daemon.
use supervisorcpp.Prelude.{
  ℕ, suc, ◌≤◌, returns, true, false, List, [], ◌∷◌, ◌++◌, Option, some, length, take, drop, Bytes,
  codes, apart, lower, ◌≡◌, refl, arith,
}
use supervisorcpp.Rpc.Connection.{
  blank_line, max_request_size, content_length, no_error, end_of_file, processes, read_all,
  response_headers, generate_http_response,
}
use supervisorcpp.Rpc.Connection.Framing.{IsHeaders, message, joined, read_all-message}
use supervisorcpp.PropertyTree.{PropertyTree}
use supervisorcpp.Rpc.Server.{Reply, result}
use supervisorcpp.Rpc.Connection.Lifetime.{
  SocketEvent, read_completes, write_completes, create_connection, start, complete_all,
}
use supervisorcpp.Rpc.Connection.OneAnswer.{IsOneAnswer, complete_all-IsOneAnswer}
use supervisorcpp.Tests.Configs.{node, leaf, key, find_node, reader}
use supervisorcpp.Rpc.Listener.{
  Event, starts, stops, accepts, SocketFile, IsServing, happen, create_server, happen-IsServing,
}
use supervisorcpp.Ctl.Http.{build_http_request, read_response}
use supervisorcpp.Ctl.RoundTrip.{read_response-generate_http_response}

abbrev call : Bytes
call = codes "<methodCall/>"

-- The request in two parts, the first of which ends within the headers.
abbrev parts : List Bytes
parts = take 30 (build_http_request call) ∷ drop 30 (build_http_request call) ∷ []

parts-joined : joined parts ≡ build_http_request call
unfolding joined build_http_request
parts-joined = refl

request_fits : length (build_http_request call) ≤ max_request_size
unfolding build_http_request
request_fits = omega arith

-- Headers in other letters, with a body of two bytes.
abbrev headers : Bytes
headers = codes "POST / HTTP/1.0\r\nCONTENT-LENGTH:\t2"

headers-IsHeaders : IsHeaders headers 2
unfolding apart content_length lower
headers-IsHeaders = record { one_blank = refl; no_bare = refl; number = refl }

abbrev chunks : List Bytes
chunks =
    take 20 (message headers (codes "hi" ++ codes " there"))
    ∷ drop 20 (message headers (codes "hi" ++ codes " there"))
    ∷ []

chunks-joined : joined chunks ≡ message headers (codes "hi" ++ codes " there")
unfolding joined
chunks-joined = refl

read_all-message_example : read_all chunks [] ≡ processes (message headers (codes "hi"))
read_all-message_example =
    read_all-message headers (codes "hi") (codes " there") chunks headers-IsHeaders chunks-joined
      (omega arith)

abbrev first_line : Bytes
first_line = codes "POST / HTTP/1.1\r\n"

no_length_there : apart (codes "content-length:") (lower first_line) ≡ true
unfolding apart lower
no_length_there = refl

named : lower (codes "Content-Length:") ≡ codes "content-length:"
unfolding lower
named = refl

no_blank_line : apart blank_line (first_line ++ (codes "Content-Length:" ++ codes "many")) ≡ true
unfolding apart
no_blank_line = refl

abbrev response : Bytes
response = generate_http_response (codes "<ok/>")

response-split : take 90 response ++ drop 90 response ≡ generate_http_response (codes "<ok/>")
unfolding generate_http_response
response-split = refl

headers_there :
    length (response_headers (length (codes "<ok/>")) ++ blank_line) ≤ length (take 90 response)
unfolding generate_http_response
headers_there = omega arith

read_response-generate_http_response_example :
    read_response (take 90 response) (drop 90 response) ≡ some (codes "<ok/>")
read_response-generate_http_response_example =
    read_response-generate_http_response (codes "<ok/>") (take 90 response) (drop 90 response)
      response-split headers_there (omega arith)

-- A stale file, a start, a connection, a stop and another start.
abbrev stale : Option SocketFile
stale = some (record { private_mode = false; active = false })

abbrev events : List Event
events = starts true true true ∷ accepts false ∷ stops ∷ accepts true ∷ starts true true true ∷ []

happen-IsServing_example : IsServing (happen events (create_server stale))
happen-IsServing_example = happen-IsServing stale events

-- The headers come first, then the rest of a call, whose response is written; what completes after it
-- is not there.
abbrev completions : List SocketEvent
completions =
    read_completes no_error (codes "POST / HTTP/1.1\r\nContent-Length: 2\r\n\r\n")
    ∷ read_completes no_error (codes "hi")
    ∷ write_completes
    ∷ read_completes end_of_file []
    ∷ []

-- The dispatcher counts its calls.
abbrev count_calls : Bytes → List Bytes → ℕ → ℕ × Reply
count_calls method params calls = (suc calls, result (codes "<string>pong</string>"))

abbrev ping_reader : PropertyTree
ping_reader = record reader {
  read_xml = λ text. returns (node [] (key (codes "methodCall.methodName") (codes "ping") leaf));
}

complete_all-IsOneAnswer_example :
    IsOneAnswer count_calls 0
      (complete_all ping_reader (λ z. []) count_calls completions (start create_connection, 0))
complete_all-IsOneAnswer_example =
    complete_all-IsOneAnswer ping_reader (λ z. []) count_calls 0 completions

-- The call was made, and its response was written.
call_made :
    let x =
      complete_all ping_reader (λ z. []) count_calls completions (start create_connection, 0) in
    (length x.0.written ≡ 1) × (x.1 ≡ 1)
unfolding complete_all start content_length lower find_node
call_made = (refl, refl)
