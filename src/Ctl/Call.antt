-- ===== src/Ctl/Call.antt =====
-- supervisorctl.h, `call_method_` and `check_fault_`: a call of the daemon, and its faults.
use supervisorcpp.Prelude.{
  not, List, [], ◌∷◌, ◌++◌, Option, none, some, if◌then◌else◌, length, drop, ℤ, Bytes, codes,
  begins, bytes_eq, returns, throws,
}
use supervisorcpp.PropertyTree.{PropertyTree}
use supervisorcpp.Util.Escape.{escape_xml}
use supervisorcpp.Rpc.Xmlrpc.{text, show_value}
use supervisorcpp.Ctl.Http.{build_http_request, read_response}

-- An `XmlRpcError` with its code, its name and its text, or a `std::runtime_error`.
pub data Failure : Type 0 where
  xmlrpc_error : Bytes → Bytes → Bytes → Failure
  runtime_error : Bytes → Failure

-- `what()`.
abbrev pub what : Failure → Bytes
what (xmlrpc_error code name message) = message
what (runtime_error message) = message

-- How the exchange over the socket ends: with what came in before and after the headers were
-- searched, or with an error of the connection.
pub data Exchanged : Type 0 where
  responded : Bytes → Bytes → Exchanged
  connection_refused : Exchanged
  -- With the message of the error.
  system_failure other_failure : Bytes → Exchanged

unfoldable pub show_params : (ℤ → Bytes) → List Bytes → Bytes
unfolding show_value
show_params show [] = []
show_params show (param ∷ r) =
    codes "<param><value>"
    ++ (show_value show (text param) ++ (codes "</value></param>" ++ show_params show r))

unfoldable pub build_xmlrpc_request : (ℤ → Bytes) → Bytes → List Bytes → Bytes
unfolding show_params escape_xml
build_xmlrpc_request show method params =
    codes "<?xml version=\"1.0\"?>\n<methodCall>\n  <methodName>"
    ++ (escape_xml method
        ++ (codes "</methodName>\n  <params>"
            ++ (show_params show params ++ codes "  </params>\n</methodCall>\n")))

-- The codes of a fault, and what the user reads.
abbrev pub translations : List (Bytes × Bytes)
translations =
    (codes "BAD_NAME", codes "no such process")
    ∷ (codes "NOT_RUNNING", codes "not running")
    ∷ (codes "ALREADY_STARTED", codes "already running")
    ∷ (codes "SPAWN_ERROR", codes "spawn error")
    ∷ []

-- The loop over the translations.
unfoldable pub translate : List (Bytes × Bytes) → Bytes → Failure
unfolding begins
translate [] fault = runtime_error fault
translate ((code, friendly) ∷ r) fault =
    let sep = code ++ codes ": " in
    let name = drop (length sep) fault in
    let rest = translate r fault in
    if begins sep fault then xmlrpc_error code name (name ++ (codes " - " ++ friendly)) else rest

unfoldable pub or_empty : Option Bytes → Bytes
or_empty none = []
or_empty (some s) = s

module _ (t : PropertyTree) where
  open t use {Tree, read_xml, get_child_optional, get_string, children}

  -- The text of the first member `faultString`.
  unfoldable pub fault_string : List (Bytes × Tree) → Bytes
  unfolding or_empty bytes_eq
  fault_string [] = []
  fault_string ((key, node) ∷ r) =
      let rest = fault_string r in
      if not (bytes_eq key (codes "member"))
      then rest
      else if not (bytes_eq (or_empty (get_string (codes "name") node)) (codes "faultString"))
      then rest
      else or_empty (get_string (codes "value.string") node)

  unfoldable pub or_unknown : Bytes → Bytes
  or_unknown [] = codes "Unknown RPC fault"
  or_unknown (c ∷ r) = c ∷ r

  -- What `check_fault_` throws; `none` where it returns.
  unfoldable pub check_fault : Tree → Option Failure
  unfolding fault_string or_unknown translate
  check_fault tree = elim (get_child_optional (codes "methodResponse.fault.value.struct") tree) [
    | none ↦ none
    | some members ↦ some (translate translations (or_unknown (fault_string (children members))))
  ]

  -- What a call returns or throws.
  pub data Called : Type 0 where
    answered : Tree → Called
    fails : Failure → Called

  -- The response, from the XML on.
  unfoldable pub read_tree : Bytes → Called
  unfolding check_fault
  read_tree response = elim (read_xml response) [
    | throws message ↦ fails (runtime_error (codes "RPC error: " ++ message))
    | returns tree ↦ elim (check_fault tree) [ none ↦ answered tree | some f ↦ fails f ]
  ]

  -- What becomes of an exchange. `unread` is the text of the exception where the response ends early
  -- or has no number for its length.
  unfoldable pub read_exchange : Bytes → Bytes → Exchanged → Called
  unfolding read_response read_tree
  read_exchange socket_path unread (responded stream socket) = elim (read_response stream socket) [
    | none ↦ fails (runtime_error (codes "RPC error: " ++ unread))
    | some response ↦ read_tree response
  ]
  read_exchange socket_path unread connection_refused =
      fails (runtime_error (codes "Connection refused — is supervisord running?"))
  read_exchange socket_path unread (system_failure message) = fails (
      runtime_error
        (codes "Connection failed: " ++ (message ++ (codes " (" ++ (socket_path ++ codes ")")))))
  read_exchange socket_path unread (other_failure message) =
      fails (runtime_error (codes "RPC error: " ++ message))

  -- `call_method_`, over an exchange that changes the state `S` of the other side.
  unfoldable pub call_method :
      {S : Type 0}
      → (ℤ → Bytes)
      → Bytes
      → Bytes
      → (Bytes → S → S × Exchanged)
      → Bytes
      → List Bytes
      → S
      → S × Called
  unfolding build_xmlrpc_request build_http_request read_exchange
  call_method show socket_path unread exchange method params s =
      let (s', e) = exchange (build_http_request (build_xmlrpc_request show method params)) s in
      (s', read_exchange socket_path unread e)
