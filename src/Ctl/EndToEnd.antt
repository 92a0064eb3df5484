-- ===== src/Ctl/EndToEnd.antt =====
-- supervisorctl.h and rpc_connection.cpp together: a call of the control program over a connection to
-- the daemon.
use supervisorcpp.Prelude.{
  ℕ, ◌^◌, ◌≤◌, ◌<◌, List, [], some, length, take, drop, take-append-drop, length-take,
  length-append, ◌++◌, ℤ, Bytes, codes, returns, throws, pos, ◌≡◌, refl, ap, ◌∙◌, arith,
}
use supervisorcpp.PropertyTree.{PropertyTree}
use supervisorcpp.Rpc.Server.{Reply}
use supervisorcpp.Rpc.Connection.{
  blank_line, max_request_size, read_all, reads_on, drops, too_large, processes, escapes,
  request_body, response_headers, generate_http_response, generate_xmlrpc_fault, reply_body,
  too_large_response, parse_xmlrpc_request, answer, process_request,
}
use supervisorcpp.Rpc.Connection.Framing.{joined}
use supervisorcpp.Ctl.Http.{build_http_request}
use supervisorcpp.Ctl.Call.{
  Exchanged, responded, other_failure, build_xmlrpc_request, Called, read_tree, read_exchange,
  call_method,
}
use supervisorcpp.Ctl.RoundTrip.{build_http_request-framed, read_response-generate_http_response}

-- How the bytes travel: the reads of the daemon, and the bytes of the response that the client has
-- when it looks for the headers.
pub record Transport : Type 0 where
  pub chunks : Bytes → List Bytes
  pub whole : (request : Bytes) → joined (chunks request) ≡ request
  pub first : ℕ

module _ (t : PropertyTree) (show : ℤ → Bytes) {S : Type 0}
    (dispatch : Bytes → List Bytes → S → S × Reply) where
  abbrev sent : Transport → S × Bytes → S × Exchanged
  sent w (s, response) = (s, responded (take w.first response) (drop w.first response))

  -- The exchange with a connection of the daemon; where it answers nothing, the client sees the end
  -- of the file.
  unfoldable pub serve : Transport → Bytes → S → S × Exchanged
  unfolding read_all process_request too_large_response
  serve w request s = elim (read_all (w.chunks request) []) [
    | processes r ↦ sent w (process_request t show dispatch r s)
    | too_large ↦ sent w (s, too_large_response show)
    | reads_on _ ↦ (s, other_failure (codes "End of file"))
    | drops ↦ (s, other_failure (codes "End of file"))
    | escapes ↦ (s, other_failure (codes "End of file"))
  ]

  -- What is made of the XML of a call: what the daemon understands of it is dispatched.
  unfoldable pub dispatch_xml : Bytes → S → S × Bytes
  unfolding parse_xmlrpc_request generate_xmlrpc_fault reply_body
  dispatch_xml xml s = elim (parse_xmlrpc_request t show xml) [
    | throws what ↦ (s, generate_xmlrpc_fault show (pos 1) what)
    | returns (method, params) ↦
        let (s', reply) = dispatch method params s in (s', reply_body show reply)
  ]

  -- The call without a connection.
  abbrev pub direct_body : Bytes → List Bytes → S → S × Bytes
  direct_body method params s = dispatch_xml (build_xmlrpc_request show method params) s

  answer-xml :
      (request xml : Bytes) (s : S)
      → request_body request ≡ some xml
      → answer t show dispatch request s ≡ dispatch_xml xml s
  unfolding answer dispatch_xml
  answer-xml request xml s e = rw (e, answer) refl

  serve-processed :
      (w : Transport) (request xml : Bytes) (s : S)
      → read_all (w.chunks request) [] ≡ processes request
      → request_body request ≡ some xml
      → serve w request s
        ≡ sent w ((dispatch_xml xml s).0, generate_http_response (dispatch_xml xml s).1)
  unfolding serve process_request
  serve-processed w request xml s cut body =
      rw (cut, serve)
        (ap (λ (a : S × Bytes). sent w (a.0, generate_http_response a.1))
          (answer-xml request xml s body))

  read_exchange-response :
      (w : Transport) (socket_path unread body : Bytes)
      → length body < 2 ^ 64
      → length (response_headers (length body) ++ blank_line) ≤ w.first
      → read_exchange t socket_path unread (
          responded
            (take w.first (generate_http_response body))
            (drop w.first (generate_http_response body)))
        ≡ read_tree t body
  unfolding read_exchange generate_http_response
  read_exchange-response w socket_path unread body small headers =
      let response = generate_http_response body in
      let there : length (response_headers (length body) ++ blank_line)
          ≤ length (take w.first response) =
        omega (
          arith,
          headers,
          length-take w.first response,
          length-append (response_headers (length body)) (blank_line ++ body),
          length-append (response_headers (length body)) blank_line,
          length-append blank_line body,
        ) in
      rw
        (
          read_response-generate_http_response body (take w.first response) (drop w.first response)
              (take-append-drop w.first response) there small,
          read_exchange,
        )
        refl

  -- A call of at most 1 MB over a connection: however the request is split over the reads of the
  -- daemon, and wherever the client's first read ends behind the headers of the response, the daemon
  -- dispatches the call once, and the client gets what the XML of the reply says. The connection adds
  -- and loses nothing.
  pub call_method-direct_body :
      (w : Transport) (socket_path unread method : Bytes) (params : List Bytes) (s : S)
      → length (build_http_request (build_xmlrpc_request show method params)) ≤ max_request_size
      → length (direct_body method params s).1 < 2 ^ 64
      → length (response_headers (length (direct_body method params s).1) ++ blank_line) ≤ w.first
      → call_method t show socket_path unread (serve w) method params s
        ≡ ((direct_body method params s).0, read_tree t (direct_body method params s).1)
  unfolding call_method
  call_method-direct_body w socket_path unread method params s fits small headers =
      let xml = build_xmlrpc_request show method params in
      let (cut, body) =
        build_http_request-framed xml (w.chunks (build_http_request xml))
          (w.whole (build_http_request xml)) fits in
      ap (λ (x : S × Exchanged). (x.0, read_exchange t socket_path unread x.1))
        (serve-processed w (build_http_request xml) xml s cut body)
      ∙ ap (λ (c : Called t). ((dispatch_xml xml s).0, c))
          (read_exchange-response w socket_path unread (dispatch_xml xml s).1 small headers)
