-- ===== src/Ctl/Socket/Uninterrupted.antt =====
-- supervisorctl.h, `call_method_`: a call over a socket whose operations are not interrupted.
use supervisorcpp.Prelude.{
  ℕ, ◌-◌, true, false, List, [], ◌++◌, Option, none, some, ltb, if◌then◌else◌, length, take,
  length-take, append-nil, ℤ, Bytes, codes, ◌≡◌, refl, ap, ◌∙◌, arith, inl, inr, Bool-cases,
  Option-cases,
}
use supervisorcpp.PropertyTree.{PropertyTree}
use supervisorcpp.Ctl.Http.{build_http_request, read_headers, read_body, read_response}
use supervisorcpp.Ctl.Call.{
  Called, fails, runtime_error, Exchanged, responded, build_xmlrpc_request, read_tree,
  read_exchange, call_method,
}
use supervisorcpp.Ctl.Socket.{
  ErrorCode, success, of_other, retry_eintr, Socket, zeros, thrown, after_read, read_rest,
  read_stream, after_find, after_write, after_connect, call_socket,
}

-- What a read of `n` bytes gives where so many are still to come; their end is an error.
abbrev pub delivered : Bytes → Bytes → ℕ → Bytes × ErrorCode
delivered eof rest n = if ltb (length rest) n then (rest, of_other eof) else (take n rest, success)

-- How an exchange ends, by the operations of the socket: with an error that is no interruption, or
-- with what `read_until` found and what is still to come.
pub data Behaves {S : Type 0} (socket : Socket S) (eof request : Bytes) (s : S) (s' : S)
    : Exchanged → Type 0 where
  not_connected :
      (e : ErrorCode)
      → socket.do_connect s ≡ (s', e)
      → retry_eintr e ≡ some e
      → Behaves socket eof request s s' (thrown e)
  not_written :
      (e : ErrorCode) (s₁ : S)
      → socket.do_connect s ≡ (s₁, success)
      → socket.do_write request s₁ ≡ (s', e)
      → retry_eintr e ≡ some e
      → Behaves socket eof request s s' (thrown e)
  not_found :
      (e : ErrorCode) (s₁ s₂ : S) (stream : Bytes)
      → socket.do_connect s ≡ (s₁, success)
      → socket.do_write request s₁ ≡ (s₂, success)
      → socket.do_read_until s₂ ≡ (s', (stream, e))
      → retry_eintr e ≡ some e
      → Behaves socket eof request s s' (thrown e)
  responds :
      (s₁ s₂ : S) (stream rest : Bytes)
      → socket.do_connect s ≡ (s₁, success)
      → socket.do_write request s₁ ≡ (s₂, success)
      → socket.do_read_until s₂ ≡ (s', (stream, success))
      → ((n : ℕ) → socket.do_read n s' ≡ (s', delivered eof rest n))
      → Behaves socket eof request s s' (responded stream rest)

module _ (t : PropertyTree) {S : Type 0} (socket : Socket S) (socket_path eof : Bytes) where
  after_read-short :
      (n : ℕ) (body rest : Bytes) (s : S)
      → ltb (length rest) n ≡ true
      → after_read t socket socket_path eof n body (s, delivered eof rest n)
        ≡ (s, fails (runtime_error (codes "RPC error: " ++ eof)))
  unfolding after_read retry_eintr read_exchange
  after_read-short n body rest s short =
      ap
        (λ b.
          after_read t socket socket_path eof n body
            (s, if b then (rest, of_other eof) else (take n rest, success)))
        short

  after_read-whole :
      (n : ℕ) (body rest : Bytes) (s : S)
      → ltb (length rest) n ≡ false
      → after_read t socket socket_path eof n body (s, delivered eof rest n)
        ≡ (s, read_tree t (body ++ take n rest))
  unfolding after_read retry_eintr zeros
  after_read-whole n body rest s enough =
      let all_there : n - length (take n rest) ≡ 0 = ground (arith, enough, length-take n rest) in
      ap
        (λ b.
          after_read t socket socket_path eof n body
            (s, if b then (rest, of_other eof) else (take n rest, success)))
        enough
      ∙ ap (λ k. (s, read_tree t (body ++ (take n rest ++ zeros k)))) all_there
      ∙ ap (λ l. (s, read_tree t (body ++ l))) (append-nil (take n rest))

  read_body_then : ℕ → Bytes → Bytes → S → S × Called t
  unfolding read_rest
  read_body_then n r rest s =
      let body = take n r in
      if ltb (length body) n
      then read_rest t socket socket_path eof n body s
      else (s, read_tree t body)

  abbrev from_body : S → Option Bytes → S × Called t
  from_body s m = (
    s,
    elim m [
      | none ↦ fails (runtime_error (codes "RPC error: " ++ eof))
      | some response ↦ read_tree t response
    ],
  )

  read_stream-delivered :
      (n : ℕ) (r rest : Bytes) (s : S)
      → ((k : ℕ) → socket.do_read k s ≡ (s, delivered eof rest k))
      → read_body_then n r rest s ≡ from_body s (read_body n r rest)
  unfolding read_body_then read_rest read_body
  read_stream-delivered n r rest s reads = elim (Bool-cases (ltb (length (take n r)) n)) [
    | inr whole ↦ rw whole refl
    | inl part ↦
        let k = n - length (take n r) in
        let there = ap (after_read t socket socket_path eof k (take n r)) (reads k) in
        elim (Bool-cases (ltb (length rest) k)) [
          | inl short ↦ rw (part, short) (there ∙ after_read-short k (take n r) rest s short)
          | inr enough ↦ rw (part, enough) (there ∙ after_read-whole k (take n r) rest s enough)
        ]
  ]

  read_stream-responded :
      (stream rest : Bytes) (s : S)
      → ((k : ℕ) → socket.do_read k s ≡ (s, delivered eof rest k))
      → read_stream t socket socket_path eof stream s
        ≡ (s, read_exchange t socket_path eof (responded stream rest))
  unfolding read_stream read_exchange read_response read_body_then
  read_stream-responded stream rest s reads = elim (Option-cases (read_headers [] stream 0)) [
    | inl e ↦ rw (e, read_stream, read_exchange, read_response) refl
    | inr ((n, r), e) ↦
        rw (e, read_stream, read_exchange, read_response) (read_stream-delivered n r rest s reads)
  ]

  -- The call over a socket is what its exchange gives.
  call_socket-Behaves :
      (request : Bytes) (s s' : S) (x : Exchanged)
      → Behaves socket eof request s s' x
      → call_socket t socket socket_path eof request s ≡ (s', read_exchange t socket_path eof x)
  unfolding call_socket after_connect after_write after_find retry_eintr
  call_socket-Behaves request s s' _ (not_connected e connects bad) =
      ap (after_connect t socket socket_path eof request) connects ∙ rw (bad, after_connect) refl
  call_socket-Behaves request s s' _ (not_written e s₁ connects writes bad) =
      ap (after_connect t socket socket_path eof request) connects
      ∙ (ap (after_write t socket socket_path eof) writes ∙ rw (bad, after_write) refl)
  call_socket-Behaves request s s' _ (not_found e s₁ s₂ stream connects writes finds bad) =
      ap (after_connect t socket socket_path eof request) connects
      ∙ (ap (after_write t socket socket_path eof) writes
          ∙ (ap (after_find t socket socket_path eof) finds ∙ rw (bad, after_find) refl))
  call_socket-Behaves request s s' _ (responds s₁ s₂ stream rest connects writes finds reads) =
      ap (after_connect t socket socket_path eof request) connects
      ∙ (ap (after_write t socket socket_path eof) writes
          ∙ (ap (after_find t socket socket_path eof) finds
              ∙ read_stream-responded stream rest s' reads))

  -- Where no operation on the socket is interrupted, and the exchange is what the operations say of it,
  -- be it a failure to connect, to write or to find the end of the headers, or bytes of which some are
  -- there at once and the rest comes later: the call with its operations on the socket is the call
  -- over the exchange, with the same error or the same response.
  pub call_socket-call_method :
      (show : ℤ → Bytes) (exchange : Bytes → S → S × Exchanged) (method : Bytes)
      (params : List Bytes) (s : S)
      → (let request = build_http_request (build_xmlrpc_request show method params) in
          Behaves socket eof request s (exchange request s).0 (exchange request s).1)
      → call_socket t socket socket_path eof
          (build_http_request (build_xmlrpc_request show method params))
          s
        ≡ call_method t show socket_path eof exchange method params s
  unfolding call_method
  call_socket-call_method show exchange method params s behaves =
      call_socket-Behaves _ s _ _ behaves
