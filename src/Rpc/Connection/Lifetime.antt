-- ===== src/Rpc/Connection/Lifetime.antt =====
-- rpc_connection.h and rpc_connection.cpp: a connection as an object, with the operations on its
-- socket that are pending.
use supervisorcpp.Prelude.{
  ℕ, suc, ◌-◌, Bool, true, false, List, [], ◌∷◌, ◌++◌, Bytes, ℤ, take, ltb, if◌then◌else◌,
}
use supervisorcpp.PropertyTree.{PropertyTree}
use supervisorcpp.Rpc.Server.{Reply}
use supervisorcpp.Rpc.Connection.{
  ReadError, handle_read, reads_on, drops, too_large, processes, escapes, process_request,
  too_large_response,
}

-- The size of `buffer_`.
abbrev pub buffer_size : ℕ
buffer_size = 8192

pub record RpcConnection : Type 0 where
  pub is_open : Bool
  pub request_data : Bytes
  -- The reads that were begun and have not completed, and the responses that are being written.
  pub reads : ℕ
  pub writes : List Bytes
  -- The responses that were written, also those that failed.
  pub written : List Bytes

-- The constructor, with the socket that was accepted.
abbrev pub create_connection : RpcConnection
create_connection = record {
  is_open = true;
  request_data = [];
  reads = 0;
  writes = [];
  written = [];
}

unfoldable pub begin_read : RpcConnection → RpcConnection
begin_read c = record c { reads = suc c.reads }

unfoldable pub start : RpcConnection → RpcConnection
unfolding begin_read
start c = begin_read c

unfoldable pub send_response : Bytes → RpcConnection → RpcConnection
send_response response c = record c { writes = c.writes ++ response ∷ [] }

-- The first of the writes that are pending completes, with an error or without.
unfoldable pub handle_write : Bytes → List Bytes → RpcConnection → RpcConnection
handle_write response r c = record c {
  is_open = false;
  writes = r;
  written = c.written ++ response ∷ [];
}

-- What completes: a read with what it brought into the buffer, or a write.
pub data SocketEvent : Type 0 where
  read_completes : ReadError → Bytes → SocketEvent
  write_completes : SocketEvent

module _ (t : PropertyTree) (show : ℤ → Bytes) {S : Type 0}
    (dispatch : Bytes → List Bytes → S → S × Reply) where
  -- `handle_read_` on the object and the state of the dispatcher. Where the connection is dropped,
  -- what it gathered is of no use any more.
  unfoldable pub complete_read : ReadError → Bytes → RpcConnection × S → RpcConnection × S
  unfolding handle_read begin_read send_response process_request too_large_response
  complete_read error received (c, s) =
      let c' = record c { reads = c.reads - 1 } in
      elim (handle_read error received c.request_data) [
        | reads_on request ↦ (begin_read (record c' { request_data = request }), s)
        | drops ↦ (c', s)
        | too_large ↦ (send_response (too_large_response show) c', s)
        | processes request ↦
            let (s', response) = process_request t show dispatch request s in
            (send_response response (record c' { request_data = request }), s')
        | escapes ↦ (c', s)
      ]

  -- `handle_write_` on the first of these writes.
  abbrev pub complete_write : List Bytes → RpcConnection × S → RpcConnection × S
  complete_write [] (c, s) = (c, s)
  complete_write (response ∷ r) (c, s) = (handle_write response r c, s)

  -- A completion, where such an operation is pending; a read brings at most the buffer.
  unfoldable pub complete : SocketEvent → RpcConnection × S → RpcConnection × S
  unfolding complete_read handle_write
  complete (read_completes error received) (c, s) =
      if ltb 0 c.reads then complete_read error (take buffer_size received) (c, s) else (c, s)
  complete write_completes (c, s) = complete_write c.writes (c, s)

  unfoldable pub complete_all : List SocketEvent → RpcConnection × S → RpcConnection × S
  unfolding complete
  complete_all [] x = x
  complete_all (k ∷ l) x = complete_all l (complete k x)
