-- ===== src/Ctl/Started.antt =====
-- Both programs: `supervisorctl restart` over a connection to the daemon with its handlers.
use supervisorcpp.Prelude.{
  ℕ, ◌≤◌, ◌<◌, ◌^◌, true, List, [], ◌∷◌, ◌++◌, none, some, length, ℤ, pos, Bytes, codes, returns,
  ◌≡◌,
}
use supervisorcpp.PropertyTree.{PropertyTree}
use supervisorcpp.Process.Types.{Process, starting}
use supervisorcpp.Config.Outside.{Outside}
use supervisorcpp.Manager.Table.{Os, find}
use supervisorcpp.Manager.Control.{LogFiles}
use supervisorcpp.Rpc.Server.{Reply, dispatch_method}
use supervisorcpp.Rpc.Handlers.{Replying}
use supervisorcpp.Rpc.Connection.{
  max_request_size, blank_line, response_headers, generate_xmlrpc_fault,
}
use supervisorcpp.Daemon.{Supervisord, parsed_file}
use supervisorcpp.Daemon.Handlers.{register_rpc_handlers}
use supervisorcpp.Util.Escape.{all_char_data, decode_xml}
use supervisorcpp.Ctl.Http.{build_http_request}
use supervisorcpp.Ctl.Call.{Called, build_xmlrpc_request, call_method}
use supervisorcpp.Ctl.EndToEnd.{Transport, serve, direct_body}

abbrev start_name : Bytes
start_name = codes "supervisor.startProcess"

-- The XML document of a call of the start with one string, whose text is given as it stands in the
-- document.
abbrev pub start_document : Bytes → Bytes
start_document value =
    codes "<?xml version=\"1.0\"?>\n<methodCall>\n  <methodName>supervisor.startProcess"
    ++ (codes "</methodName>\n  <params><param><value><string>"
        ++ (value ++ codes "</string></value></param>  </params>\n</methodCall>\n"))

-- The tree has the elements of this document: the name of the method, and one parameter with a string.
abbrev pub HasCall : (t : PropertyTree) → t.Tree → Bytes → Type 0
HasCall t tree name =
    (t.get_string (codes "methodCall.methodName") tree ≡ some start_name)
    × ((params : t.Tree) × (t.get_child_optional (codes "methodCall.params") tree ≡ some params)
        × ((param : t.Tree) × (t.children params ≡ (codes "param", param) ∷ [])
            × (t.get_string (codes "value.string") param ≡ some name)))

-- What the two programs rely on of the XML reader: of a document of a call, whose character data are
-- the name once its entities are decoded, it reads the elements; and what is read of a fault has its
-- struct.
pub record ReadsXml (t : PropertyTree) (show : ℤ → Bytes) (name : Bytes) : Type 0 where
  pub reads_call :
      (value : Bytes)
      → all_char_data value ≡ true
      → decode_xml none value ≡ name
      → (tree : t.Tree) × (t.read_xml (start_document value) ≡ returns tree) × HasCall t tree name
  pub reads_fault :
      (text : Bytes) (tree : t.Tree)
      → t.read_xml (generate_xmlrpc_fault show (pos 1) text) ≡ returns tree
      → (members : t.Tree) × (t.get_child_optional (codes "methodResponse.fault.value.struct") tree
          ≡ some members)

module _ (t : PropertyTree) where
  module _ (os : Os) (files : ℕ → LogFiles) (pid : ℕ) (o : Outside) (r : Replying) where
    -- The dispatcher of the daemon.
    abbrev pub daemon_dispatch : Bytes → List Bytes → Supervisord → Supervisord × Reply
    daemon_dispatch = dispatch_method (register_rpc_handlers (parsed_file t o) os files pid r)

    -- The process of this name is in STARTING.
    abbrev pub IsStarting : Bytes → Supervisord → Type 0
    IsStarting name d =
        (q : Process) × (find name d.process_manager.process_map ≡ some q) × (q.state ≡ starting)

    module _ (w : Transport) (socket_path unread : Bytes) where
      -- A call of the control program, over a connection of this kind to the daemon.
      abbrev pub over_wire : Bytes → List Bytes → Supervisord → Supervisord × Called t
      over_wire = call_method t r.show socket_path unread (serve t r.show daemon_dispatch w)

      -- The texts of a start are within the bounds, and the response is cut behind its headers.
      pub record IsCarried (name : Bytes) (d : Supervisord) : Type 0 where
        pub request_fits :
            length (build_http_request (build_xmlrpc_request r.show start_name (name ∷ [])))
            ≤ max_request_size
        pub reply_fits :
            length (direct_body t r.show daemon_dispatch start_name (name ∷ []) d).1 < 2 ^ 64
        pub headers_in_first :
            length (
              response_headers
                (length (direct_body t r.show daemon_dispatch start_name (name ∷ []) d).1)
              ++ blank_line)
            ≤ w.first
