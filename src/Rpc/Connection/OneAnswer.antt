-- ===== src/Rpc/Connection/OneAnswer.antt =====
-- rpc_connection.cpp: what holds of a connection through all that completes on its socket.
use supervisorcpp.Prelude.{
  ◌+◌, ◌-◌, ◌≤◌, ◌<◌, false, List, [], ◌∷◌, some, Bytes, ℤ, take, ltb, length, length-append, Tried,
  returns, throws, ◌≡◌, ◌⊎◌, refl, ap, subst, arith, inl, inr, Bool-cases, Option-cases,
}
use supervisorcpp.PropertyTree.{PropertyTree}
use supervisorcpp.Rpc.Server.{Reply}
use supervisorcpp.Rpc.Connection.{
  ReadError, Step, handle_read, reads_on, drops, too_large, processes, escapes, process_request,
  answer, request_body, parse_xmlrpc_request, max_request_size,
}
use supervisorcpp.Rpc.Connection.Bounded.{IsWithin, handle_read-IsWithin}
use supervisorcpp.Rpc.Connection.Lifetime.{
  RpcConnection, create_connection, begin_read, start, send_response, handle_write, SocketEvent,
  read_completes, write_completes, complete_read, complete_write, complete, complete_all,
  buffer_size,
}

-- Whatever the bytes of a request are, it changes the state at most as one call does.
pub process_request-leads :
    (t : PropertyTree) {S : Type 0} (R : S → S → Type 0) (show : ℤ → Bytes)
    (dispatch : Bytes → List Bytes → S → S × Reply)
    → ((s : S) → R s s)
    → ((name : Bytes) (params : List Bytes) (s : S) → R s (dispatch name params s).0)
    → (request : Bytes) (s : S) → R s (process_request t show dispatch request s).0
unfolding process_request answer
process_request-leads t R show dispatch same leads request s =
    elim (Option-cases (request_body request)) [
      | inl e ↦ rw (e, answer) (same s)
      | inr (xml, e) ↦ go xml (parse_xmlrpc_request t show xml) e refl
    ]
  where
    go :
        (xml : Bytes) (m : Tried (Bytes × List Bytes))
        → request_body request ≡ some xml
        → parse_xmlrpc_request t show xml ≡ m
        → R s (process_request t show dispatch request s).0
    go xml (throws what) e f = rw (e, f, answer) (same s)
    go xml (returns (name, params)) e f = rw (e, f, answer) (leads name params s)

-- At most one operation is pending and at most one response was made, with at most one call; the
-- socket is closed behind the response, and what is gathered stays within the limit.
pub record IsOneAnswer {S : Type 0} (dispatch : Bytes → List Bytes → S → S × Reply) (s₀ : S)
    (x : RpcConnection × S) : Type 0 where
  pub one_answer : x.0.reads + length x.0.writes + length x.0.written ≤ 1
  pub closed : 0 < length x.0.written → x.0.is_open ≡ false
  pub bounded : length x.0.request_data ≤ max_request_size
  pub no_call_yet : 0 < x.0.reads → x.1 ≡ s₀
  pub one_call :
      (x.1 ≡ s₀)
      ⊎ ((method : Bytes) × ((params : List Bytes) × (x.1 ≡ (dispatch method params s₀).0)))

module _ (t : PropertyTree) (show : ℤ → Bytes) {S : Type 0}
    (dispatch : Bytes → List Bytes → S → S × Reply) (s₀ : S) where
  abbrev CalledOnce : S → S → Type 0
  CalledOnce s r =
      (r ≡ s) ⊎ ((method : Bytes) × ((params : List Bytes) × (r ≡ (dispatch method params s).0)))

  process_request-CalledOnce :
      (request : Bytes) (s : S) → CalledOnce s (process_request t show dispatch request s).0
  process_request-CalledOnce =
      process_request-leads t CalledOnce show dispatch (λ s. inl refl)
        (λ method params s. inr (method, (params, refl)))

  -- A response is made, and no read is pending any more.
  answered :
      (c : RpcConnection) (s : S) (response request : Bytes)
      → c.reads + length c.writes + length c.written ≤ 1
      → 0 < c.reads
      → length request ≤ max_request_size
      → CalledOnce s₀ s
      → IsOneAnswer dispatch s₀
          (send_response response (record c { reads = c.reads - 1; request_data = request }), s)
  unfolding send_response
  answered c s response request one pending small called = record {
    one_answer = omega (arith, one, pending, length-append c.writes (response ∷ []));
    closed = λ h. absurd (omega (arith, one, pending, h));
    bounded = small;
    no_call_yet = λ h. absurd (omega (arith, one, pending, h));
    one_call = called;
  }

  -- Nothing is pending any more.
  abandoned :
      (c : RpcConnection) (s : S)
      → 0 < c.reads
      → IsOneAnswer dispatch s₀ (c, s)
      → IsOneAnswer dispatch s₀ (record c { reads = c.reads - 1 }, s)
  abandoned c s pending i = record {
    one_answer = omega (arith, i.one_answer);
    closed = i.closed;
    bounded = i.bounded;
    no_call_yet = λ h. i.no_call_yet pending;
    one_call = i.one_call;
  }

  complete_read-IsOneAnswer :
      (error : ReadError) (received : Bytes) (c : RpcConnection) (s : S)
      → 0 < c.reads
      → IsOneAnswer dispatch s₀ (c, s)
      → IsOneAnswer dispatch s₀ (complete_read t show dispatch error received (c, s))
  unfolding complete_read begin_read
  complete_read-IsOneAnswer error received c s pending i =
      go (handle_read error received c.request_data) refl
        (handle_read-IsWithin error received c.request_data)
    where
      go :
          (x : Step)
          → handle_read error received c.request_data ≡ x
          → IsWithin max_request_size x
          → IsOneAnswer dispatch s₀ (complete_read t show dispatch error received (c, s))
      go (reads_on request) e small =
          rw (e, complete_read)
            (record {
              one_answer = omega (arith, i.one_answer, pending);
              closed = i.closed;
              bounded = small;
              no_call_yet = λ h. i.no_call_yet pending;
              one_call = i.one_call;
            })
      go drops e small = rw (e, complete_read) (abandoned c s pending i)
      go too_large e small =
          rw (e, complete_read)
            (answered c s _ c.request_data i.one_answer pending i.bounded i.one_call)
      go (processes request) e small =
          rw (e, complete_read)
            (answered c _ _ request i.one_answer pending small (
              subst (λ r. CalledOnce r (process_request t show dispatch request s).0)
                (i.no_call_yet pending) (process_request-CalledOnce request s)))
      go escapes e small = rw (e, complete_read) (abandoned c s pending i)

  handle_write-IsOneAnswer :
      (response : Bytes) (r : List Bytes) (c : RpcConnection) (s : S)
      → c.writes ≡ response ∷ r
      → IsOneAnswer dispatch s₀ (c, s)
      → IsOneAnswer dispatch s₀ (handle_write response r c, s)
  unfolding handle_write
  handle_write-IsOneAnswer response r c s e i = record {
    one_answer = omega (arith, i.one_answer, ap length e, length-append c.written (response ∷ []));
    closed = λ h. refl;
    bounded = i.bounded;
    no_call_yet = i.no_call_yet;
    one_call = i.one_call;
  }

  complete_write-IsOneAnswer :
      (l : List Bytes) (c : RpcConnection) (s : S)
      → c.writes ≡ l
      → IsOneAnswer dispatch s₀ (c, s)
      → IsOneAnswer dispatch s₀ (complete_write t show dispatch l (c, s))
  complete_write-IsOneAnswer [] c s e i = i
  complete_write-IsOneAnswer (response ∷ r) c s e i = handle_write-IsOneAnswer response r c s e i

  complete-IsOneAnswer :
      (k : SocketEvent) (x : RpcConnection × S)
      → IsOneAnswer dispatch s₀ x
      → IsOneAnswer dispatch s₀ (complete t show dispatch k x)
  unfolding complete
  complete-IsOneAnswer (read_completes error received) (c, s) i =
      elim (Bool-cases (ltb 0 c.reads)) [
        | inl pending ↦ rw pending (
            complete_read-IsOneAnswer error (take buffer_size received) c s
              (ground (arith, pending)) i)
        | inr none_there ↦ rw none_there i
      ]
  complete-IsOneAnswer write_completes (c, s) i = complete_write-IsOneAnswer c.writes c s refl i

  complete_all-kept :
      (l : List SocketEvent) (x : RpcConnection × S)
      → IsOneAnswer dispatch s₀ x
      → IsOneAnswer dispatch s₀ (complete_all t show dispatch l x)
  unfolding complete_all
  complete_all-kept [] x i = i
  complete_all-kept (k ∷ l) x i =
      complete_all-kept l (complete t show dispatch k x) (complete-IsOneAnswer k x i)

  -- A connection that was started, whatever its reads bring, in whatever order reads and writes
  -- complete, with errors or without: at most one operation is pending, at most one response is made,
  -- with at most one call of the dispatcher, and none while it reads; the socket is closed once the
  -- response was written; and what it gathers stays within 1 MB.
  pub complete_all-IsOneAnswer :
      (l : List SocketEvent)
      → IsOneAnswer dispatch s₀ (complete_all t show dispatch l (start create_connection, s₀))
  unfolding start begin_read
  complete_all-IsOneAnswer l =
      complete_all-kept l (start create_connection, s₀)
        (record {
          one_answer = omega arith;
          closed = λ h. absurd (omega (arith, h));
          bounded = omega arith;
          no_call_yet = λ h. refl;
          one_call = inl refl;
        })
