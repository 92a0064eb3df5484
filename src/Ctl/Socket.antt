-- ===== src/Ctl/Socket.antt =====
-- supervisorctl.h, `call_method_` with its operations on the socket and `retry_eintr_`. The socket is
-- an argument.
pub mod Uninterrupted
use supervisorcpp.Prelude.{
  ℕ, zero, suc, ◌-◌, ◌≤◌, ◌<◌, Bool, true, false, List, [], ◌∷◌, ◌++◌, Option, none, some, ltb,
  if◌then◌else◌, length, take, drop, length-take, ℤ, Bytes, codes, ◌≡◌, refl, sym, ap, ◌∙◌, arith,
  inl, inr, Bool-cases, Option-cases,
}
use supervisorcpp.PropertyTree.{PropertyTree}
use supervisorcpp.Ctl.Http.{build_http_request, read_headers, read_body, read_response}
use supervisorcpp.Ctl.Call.{
  Called, fails, runtime_error, Exchanged, responded, connection_refused, system_failure,
  other_failure, build_xmlrpc_request, read_tree, read_exchange, call_method,
}

-- How an operation on a socket ends; a failure is of the system's category, with its message, or of
-- another.
pub data ErrorCode : Type 0 where
  success interrupted refused_connection : ErrorCode
  of_system of_other : Bytes → ErrorCode

-- `retry_eintr_`, on the end of the operation: what it throws. `continue` goes to the test of the
-- loop, which is false, so an interrupted operation is not tried again.
unfoldable pub retry_eintr : ErrorCode → Option ErrorCode
retry_eintr success = none
retry_eintr interrupted = none
retry_eintr refused_connection = some refused_connection
retry_eintr (of_system message) = some (of_system message)
retry_eintr (of_other message) = some (of_other message)

-- The operations of the socket, over the state `S` of what is behind it. A read gives what it put into
-- the buffer.
pub record Socket (S : Type 0) : Type 0 where
  pub do_connect : S → S × ErrorCode
  pub do_write : Bytes → S → S × ErrorCode
  pub do_read_until : S → S × (Bytes × ErrorCode)
  pub do_read : ℕ → S → S × (Bytes × ErrorCode)

-- The bytes of `resize` that no read has filled.
unfoldable pub zeros : ℕ → Bytes
zeros zero = []
zeros (suc n) = 0 ∷ zeros n

-- What is thrown for an error.
abbrev pub thrown : ErrorCode → Exchanged
thrown refused_connection = connection_refused
thrown (of_system message) = system_failure message
thrown (of_other message) = other_failure message
thrown success = other_failure []
thrown interrupted = other_failure []

module _ (t : PropertyTree) {S : Type 0} (socket : Socket S) (socket_path unread : Bytes) where
  abbrev throw : ErrorCode → Called t
  throw e = read_exchange t socket_path unread (thrown e)

  -- What becomes of the rest of the body, of which so many bytes were asked for.
  unfoldable pub after_read : ℕ → Bytes → S × (Bytes × ErrorCode) → S × Called t
  unfolding retry_eintr zeros read_tree read_exchange
  after_read remaining body (s, (got, code)) = elim (retry_eintr code) [
    | some e ↦ (s, throw e)
    | none ↦ (s, read_tree t (body ++ (got ++ zeros (remaining - length got))))
  ]

  -- The rest of the body, behind the bytes of it that were in the stream.
  unfoldable pub read_rest : ℕ → Bytes → S → S × Called t
  unfolding after_read
  read_rest content_length body s =
      let remaining = content_length - length body in
      after_read remaining body (socket.do_read remaining s)

  -- From the headers on.
  unfoldable pub read_stream : Bytes → S → S × Called t
  unfolding read_headers read_rest
  read_stream stream s = elim (read_headers [] stream 0) [
    | none ↦ (s, fails (runtime_error (codes "RPC error: " ++ unread)))
    | some (content_length, rest) ↦
        let body = take content_length rest in
        if ltb (length body) content_length
        then read_rest content_length body s
        else (s, read_tree t body)
  ]

  unfoldable pub after_find : S × (Bytes × ErrorCode) → S × Called t
  unfolding read_stream
  after_find (s, (stream, code)) = elim (retry_eintr code) [
    | some e ↦ (s, throw e)
    | none ↦ read_stream stream s
  ]

  unfoldable pub after_write : S × ErrorCode → S × Called t
  unfolding after_find
  after_write (s, code) = elim (retry_eintr code) [
    | some e ↦ (s, throw e)
    | none ↦ after_find (socket.do_read_until s)
  ]

  unfoldable pub after_connect : Bytes → S × ErrorCode → S × Called t
  unfolding after_write
  after_connect http_request (s, code) = elim (retry_eintr code) [
    | some e ↦ (s, throw e)
    | none ↦ after_write (socket.do_write http_request s)
  ]

  unfoldable pub call_socket : Bytes → S → S × Called t
  unfolding after_connect
  call_socket http_request s = after_connect http_request (socket.do_connect s)
