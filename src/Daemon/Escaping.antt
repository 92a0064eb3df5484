-- ===== src/Daemon/Escaping.antt =====
-- supervisord.cpp and rpc_connection.cpp: an exception that leaves the event loop.
use supervisorcpp.Prelude.{
  ℕ, if◌then◌else◌, ◌≤◌, Bool, true, false, List, [], ◌∷◌, ◌++◌, length, lower, apart, Bytes, ◌≡◌,
  refl, ap, ◌∙◌,
}
use supervisorcpp.PropertyTree.{PropertyTree}
use supervisorcpp.Config.Outside.{Outside}
use supervisorcpp.Manager.Table.{Os}
use supervisorcpp.Manager.Control.{LogFiles}
use supervisorcpp.Rpc.Connection.{
  blank_line, content_length_name, max_request_size, read_all, handle_read, escapes, no_error,
}
use supervisorcpp.Rpc.Connection.Framing.{message}
use supervisorcpp.Rpc.Connection.Numbers.{IsNoNumber, all_blanks, handle_read-no_number}
use supervisorcpp.Rpc.Handlers.{Replying}
use supervisorcpp.Daemon.{Supervisord}
use supervisorcpp.Daemon.Run.{Occurrence, connects, serve_connection, exception, occurs, event_loop}

read_all-escapes :
    (received : Bytes)
    → handle_read no_error received [] ≡ escapes
    → read_all (received ∷ []) [] ≡ escapes
unfolding read_all
read_all-escapes received h = rw (h, read_all) refl

module _ (t : PropertyTree) (os : Os) (files : ℕ → LogFiles) (pid : ℕ) where
  serve_connection-escapes :
      (r : Replying) (o : Outside) (chunks : List Bytes) (d : Supervisord)
      → read_all chunks [] ≡ escapes
      → serve_connection t os files pid r o chunks d ≡ (d, exception)
  unfolding serve_connection
  serve_connection-escapes r o chunks d h = rw (h, serve_connection) refl

  occurs-escapes :
      (r : Replying) (o : Outside) (chunks : List Bytes) (d : Supervisord)
      → read_all chunks [] ≡ escapes
      → occurs t os files pid (connects r o chunks) d ≡ (d, false)
  unfolding occurs
  occurs-escapes r o chunks d h = rw (serve_connection-escapes r o chunks d h, occurs) refl

  event_loop-escapes :
      (x : Occurrence) (l : List Occurrence) (d : Supervisord)
      → d.is_over ≡ false
      → occurs t os files pid x d ≡ (d, false)
      → event_loop t os files pid (x ∷ l) d ≡ (d, false)
  unfolding event_loop
  event_loop-escapes x l d on h =
      ap
        (λ b.
          if b
          then (d, true)
          else if (occurs t os files pid x d).1
          then event_loop t os files pid l (occurs t os files pid x d).0
          else ((occurs t os files pid x d).0, false))
        on
      ∙ ap
          (λ (y : Supervisord × Bool).
            if y.1 then event_loop t os files pid l y.0 else (y.0, false))
          h

  -- A client sends a request, in one read, whose `Content-Length:` is followed, behind any spaces and
  -- tabs, by a byte that is neither space nor the beginning of a number, or by a line of digits of a
  -- number of 2 ^ 64 or more: an exception leaves the event loop of the daemon, with the state as it was,
  -- and nothing that was to come happens.
  pub event_loop-no_number :
      (q name b v body : Bytes) (r : Replying) (o : Outside) (l : List Occurrence) (d : Supervisord)
      → lower name ≡ content_length_name
      → length name ≡ 15
      → apart content_length_name (lower q) ≡ true
      → all_blanks b ≡ true
      → IsNoNumber v
      → apart blank_line (q ++ (name ++ (b ++ v))) ≡ true
      → length (message (q ++ (name ++ (b ++ v))) body) ≤ max_request_size
      → d.is_over ≡ false
      → event_loop t os files pid (connects r o (message (q ++ (name ++ (b ++ v))) body ∷ []) ∷ l) d
        ≡ (d, false)
  event_loop-no_number q name b v body r o l d named long one blanks bad blank fits on =
      event_loop-escapes _ l d on (
        occurs-escapes r o _ d (
          read_all-escapes _
            (handle_read-no_number q name b v body named long one blanks bad blank fits)))
