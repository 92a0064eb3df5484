-- ===== src/Tests/Clients.antt =====
-- Commands of the control program against a daemon that counts its calls.
use supervisorcpp.Prelude.{
  ℕ, suc, false, List, [], ◌∷◌, ◌++◌, some, if◌then◌else◌, pos, Bytes, codes, bytes_eq, ◌≡◌, refl,
}
use supervisorcpp.Ctl.Call.{xmlrpc_error, Called, answered, fails, fault_string}
use supervisorcpp.Ctl.Commands.{execute_command, cmd_restart}
use supervisorcpp.Ctl.Worlds.{World, ok, ◌>>=◌, handle}
use supervisorcpp.Ctl.Commands.Outcomes.{EndsIf, is_exit, execute_command-EndsIf}
use supervisorcpp.Ctl.Commands.Restart.{is_down, ended, failed, cmd_restart_lem}
use supervisorcpp.Tests.Configs.{Node, node, leaf, branch, key, find_node, listed, reader}

-- The process is not running when it is stopped; every other call is answered.
unfoldable daemon : Bytes → List Bytes → ℕ → ℕ × Called reader
unfolding bytes_eq
daemon method params calls = (
  suc calls,
  if bytes_eq method (codes "supervisor.stopProcess")
      then fails (xmlrpc_error (codes "NOT_RUNNING") (codes "web") (codes "web - not running"))
      else answered (node [] leaf),
)

abbrev at_start : World ℕ
at_start = record { daemon = 0; out = []; err = [] }

-- It is tolerated, and both calls are made.
restarted :
    cmd_restart reader daemon (codes "web" ∷ []) at_start
    ≡ (record { daemon = 2; out = codes "web: restarted\n"; err = [] }, ok (pos 0))
unfolding cmd_restart daemon ◌>>=◌ handle bytes_eq
restarted = refl

not_all : bytes_eq (codes "web") (codes "all") ≡ false
unfolding bytes_eq
not_all = refl

cmd_restart_lem_example : cmd_restart reader daemon (codes "web" ∷ []) at_start ≡ (
    if is_down (daemon (codes "supervisor.stopProcess") (codes "web" ∷ []) 0).1
    then ended {t = reader} (record at_start { daemon = 2 }) (codes "web") (answered (node [] leaf))
    else failed
        (record at_start { daemon = 1 })
        (daemon (codes "supervisor.stopProcess") (codes "web" ∷ []) 0).1
        (pos 0))
unfolding daemon
cmd_restart_lem_example = cmd_restart_lem reader daemon at_start (codes "web") [] not_all

execute_command-EndsIf_example :
    EndsIf
      (is_exit (codes "quit"))
      (execute_command reader daemon (pos 0) (codes "quit") [] at_start).1
execute_command-EndsIf_example =
    execute_command-EndsIf reader daemon (pos 0) (codes "quit") [] at_start

abbrev members : Node
members = node [] (
    branch (codes "member")
      (node [] (
        key (codes "name") (codes "faultString")
          (key (codes "value.string") (codes "BAD_NAME: web") leaf)))
      leaf)

abbrev fault_tree : Node
fault_tree = node [] (branch (codes "methodResponse.fault.value.struct") members leaf)

has_struct :
    reader.get_child_optional (codes "methodResponse.fault.value.struct") fault_tree ≡ some members
unfolding find_node bytes_eq
has_struct = refl

names_web :
    fault_string reader (reader.children members) ≡ (codes "BAD_NAME" ++ codes ": ") ++ codes "web"
unfolding fault_string find_node listed bytes_eq
names_web = refl
