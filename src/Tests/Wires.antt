-- ===== src/Tests/Wires.antt =====
-- A call over a connection whose bytes come in two parts.
use supervisorcpp.Prelude.{
  refl, ℕ, suc, ◌^◌, ◌≤◌, ◌<◌, List, [], ◌∷◌, ◌++◌, ℤ, Bytes, codes, bytes_eq, length, take, drop,
  take-append-drop, append-nil, returns, ◌≡◌, ap, ◌∙◌, arith,
}
use supervisorcpp.PropertyTree.{PropertyTree}
use supervisorcpp.Util.Escape.{escape_xml, escape_str, escape_loop, xml_needles}
use supervisorcpp.Rpc.Server.{Reply, result}
use supervisorcpp.Rpc.Connection.{blank_line, max_request_size, response_headers}
use supervisorcpp.Rpc.Connection.Framing.{joined}
use supervisorcpp.Ctl.Http.{build_http_request}
use supervisorcpp.Ctl.Call.{build_xmlrpc_request, Exchanged, responded, read_tree, call_method}
use supervisorcpp.Ctl.Socket.{Socket, success, interrupted, zeros, read_rest, call_socket}
use supervisorcpp.Ctl.Socket.Uninterrupted.{delivered, responds, call_socket-call_method}
use supervisorcpp.Ctl.EndToEnd.{
  Transport, serve, dispatch_xml, direct_body, call_method-direct_body,
}
use supervisorcpp.Tests.Configs.{node, leaf, key, find_node, reader}

-- A reader that finds a call of `ping` without parameters, and no fault.
abbrev ping_reader : PropertyTree
ping_reader = record reader {
  read_xml = λ text. returns (node [] (key (codes "methodCall.methodName") (codes "ping") leaf));
}

-- The daemon counts its calls.
abbrev count_calls : Bytes → List Bytes → ℕ → ℕ × Reply
count_calls method params calls = (suc calls, result (codes "<string>pong</string>"))

abbrev show_one : ℤ → Bytes
show_one i = codes "1"

pub two_parts : (request : Bytes) → joined (take 40 request ∷ drop 40 request ∷ []) ≡ request
unfolding joined
two_parts request =
    ap (λ r. take 40 request ++ r) (append-nil (drop 40 request)) ∙ take-append-drop 40 request

abbrev pub wire : Transport
wire = record {
  chunks = λ request. take 40 request ∷ drop 40 request ∷ [];
  whole = two_parts;
  first = 100;
}

call_fits :
    length (build_http_request (build_xmlrpc_request show_one (codes "ping") [])) ≤ max_request_size
unfolding build_http_request build_xmlrpc_request escape_xml escape_str escape_loop xml_needles
call_fits = omega arith

reply_small : length (direct_body ping_reader show_one count_calls (codes "ping") [] 0).1 < 2 ^ 64
unfolding dispatch_xml find_node bytes_eq
reply_small = omega arith

headers_in_first :
    length (
      response_headers (length (direct_body ping_reader show_one count_calls (codes "ping") [] 0).1)
      ++ blank_line)
    ≤ 100
unfolding dispatch_xml find_node bytes_eq response_headers
headers_in_first = omega arith

call_method-direct_body_example :
    call_method ping_reader show_one [] []
      (serve ping_reader show_one count_calls wire)
      (codes "ping")
      []
      0
    ≡ (
      (direct_body ping_reader show_one count_calls (codes "ping") [] 0).0,
      read_tree ping_reader (direct_body ping_reader show_one count_calls (codes "ping") [] 0).1,
    )
call_method-direct_body_example =
    call_method-direct_body ping_reader show_one count_calls wire [] [] (codes "ping") [] 0
      call_fits reply_small headers_in_first

-- A socket that counts its operations, and has two parts of a response.
abbrev response : Bytes
response = codes "HTTP/1.1 200 OK\r\nContent-Length: 5\r\n\r\n<ok/>"

abbrev counting : Socket ℕ
counting = record {
  do_connect = λ n. (suc n, success);
  do_write = λ request n. (suc n, success);
  do_read_until = λ n. (suc n, (take 40 response, success));
  do_read = λ k n. (n, delivered (codes "End of file") (drop 40 response) k);
}

abbrev exchange_counted : Bytes → ℕ → ℕ × Exchanged
exchange_counted request n = (suc (suc (suc n)), responded (take 40 response) (drop 40 response))

call_socket-call_method_example :
    call_socket ping_reader counting []
      (codes "End of file")
      (build_http_request (build_xmlrpc_request show_one (codes "ping") []))
      0
    ≡ call_method ping_reader show_one [] (codes "End of file") exchange_counted (codes "ping") [] 0
call_socket-call_method_example =
    call_socket-call_method ping_reader counting [] (codes "End of file") show_one exchange_counted
      (codes "ping") [] 0
      (responds 1 2 (take 40 response) (drop 40 response) refl refl refl (λ n. refl))

-- An interrupted read of the body counts as one that succeeded: what it did not fill stays zero.
zeros_stay :
    read_rest ping_reader
      (record counting { do_read = λ k n. (n, (codes "<o", interrupted)) })
      []
      (codes "End of file")
      5
      []
      3
    ≡ (3, read_tree ping_reader (codes "<o" ++ zeros 3))
unfolding read_rest zeros
zeros_stay = refl
