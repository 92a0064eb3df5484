-- ===== src/Tests/Restarts.antt =====
-- A restart over connections to the daemon.
use supervisorcpp.Prelude.{
  ◌+◌, length, take, drop, List, [], ◌∷◌, Option, none, some, ℤ, Bytes, codes, find_from, returns,
}
use supervisorcpp.PropertyTree.{PropertyTree}
use supervisorcpp.Util.Escape.{decode_xml}
use supervisorcpp.Rpc.Handlers.{Replying}
use supervisorcpp.Daemon.{Supervisord, create_supervisord}
use supervisorcpp.Ctl.Call.{Called}
use supervisorcpp.Ctl.Commands.{cmd_restart}
use supervisorcpp.Ctl.Worlds.{World}
use supervisorcpp.Ctl.Started.{over_wire}
use supervisorcpp.Tests.Configs.{Node, node, leaf, branch, key, reader, system}
use supervisorcpp.Tests.Daemons.{configuration}
use supervisorcpp.Tests.Data.{os, files, web}
use supervisorcpp.Tests.Wires.{wire}

abbrev has : Bytes → Bytes → Option (Unit {0})
has needle text = elim (find_from needle text) [ none ↦ none | some i ↦ some tt ]

abbrev members : Node
members = node [] (
    branch (codes "member")
      (node [] (
        key (codes "name") (codes "faultString")
          (key (codes "value.string") (codes "NOT_RUNNING: web") leaf)))
      leaf)

abbrev fault_tree : Node
fault_tree = node [] (branch (codes "methodResponse.fault.value.struct") members leaf)

abbrev call_tree : Bytes → Bytes → Node
call_tree method value = node [] (
    key (codes "methodCall.methodName") method (
      branch (codes "methodCall.params")
        (node [] (branch (codes "param") (node [] (key (codes "value.string") value leaf)) leaf))
        leaf))

-- What stands between two tags.
abbrev between : Bytes → Bytes → Bytes → Bytes
between opening closing text = elim (find_from opening text) [
  | none ↦ []
  | some i ↦
      let rest = drop (i + length opening) text in
      elim (find_from closing rest) [ none ↦ rest | some j ↦ take j rest ]
]

-- A reader that knows calls with one string, whose entities it decodes, and faults, and takes all else
-- for a reply.
abbrev xml_reader : PropertyTree
xml_reader = record reader {
  read_xml = λ text. returns (elim (has (codes "<methodCall>") (take 40 text)) [
    | some u ↦
        call_tree (between (codes "<methodName>") (codes "</methodName>") text)
          (decode_xml none (between (codes "<string>") (codes "</string>") text))
    | none ↦ elim (has (codes "<fault>") text) [ some u ↦ fault_tree | none ↦ node [] leaf ]
  ]);
}

abbrev show_one : ℤ → Bytes
show_one i = codes "1"

abbrev replying : Replying
replying = record { show = show_one; now = 1; system_now = 1 }

-- The process was not started.
abbrev idle : World Supervisord
idle = record {
  daemon = create_supervisord os (λ n. files) (configuration (web ∷ []));
  out = [];
  err = [];
}

abbrev calls : Bytes → List Bytes → Supervisord → Supervisord × Called xml_reader
calls = over_wire xml_reader os (λ n. files) 7 system replying wire [] []

-- The stop is refused, which leaves the daemon as it was.
abbrev stopped : Supervisord
stopped = (calls (codes "supervisor.stopProcess") (codes "web" ∷ []) idle.daemon).0

abbrev behind : World Supervisord
behind = (cmd_restart xml_reader calls (codes "web" ∷ []) idle).0
