-- ===== src/Rpc/Handlers.antt =====
-- rpc_handlers.h, `register_process_handlers`: the calls that manage processes.
use supervisorcpp.Prelude.{
  ℕ, true, not, ◌||◌, List, [], ◌∷◌, ◌++◌, none, some, if◌then◌else◌, ℤ, Bytes, codes,
}
use supervisorcpp.Process.Types.{running, starting, stopped, exited, fatal, state_eq}
use supervisorcpp.Manager.Table.{Table, Manager, Os, find}
use supervisorcpp.Manager.Control.{start_all, stop_all, start_process, stop_process}
use supervisorcpp.Rpc.Xmlrpc.{boolean, show_value, show_info, show_infos, get_info, ProcessInfo}
use supervisorcpp.Rpc.Server.{Reply, result, fault, Handler, Handlers, register_handler}

-- The clocks at the time of the reply, and the printing of numbers.
pub record Replying : Type 0 where
  pub show : ℤ → Bytes
  pub now : ℕ
  pub system_now : ℕ

abbrev name_required : Reply
name_required = fault (codes "Process name required")

-- `get_all_process_info`, in the order of the names.
unfoldable pub get_all_process_info : Replying → Table → List ProcessInfo
get_all_process_info r [] = []
get_all_process_info r ((_, p) ∷ t) =
    get_info r.show r.now r.system_now p ∷ get_all_process_info r t

unfoldable pub all_info : Replying → Manager → Manager × Reply
unfolding get_all_process_info
all_info r m = (m, result (show_infos r.show (get_all_process_info r m.process_map)))

unfoldable pub get_process_info : Replying → Handler Manager
get_process_info r [] m = (m, name_required)
get_process_info r (name ∷ _) m = elim (find name m.process_map) [
  | none ↦ (m, fault (codes "BAD_NAME: " ++ name))
  | some p ↦ (m, result (show_info r.show (get_info r.show r.now r.system_now p)))
]

abbrev pub is_true : Replying → Reply
is_true r = result (show_value r.show (boolean true))

unfoldable pub start_handler : Os → Replying → Handler Manager
start_handler os r [] m = (m, name_required)
start_handler os r (name ∷ _) m = elim (find name m.process_map) [
  | none ↦ (m, fault (codes "BAD_NAME: " ++ name))
  | some p ↦
      if state_eq p.state running || state_eq p.state starting
      then (m, fault (codes "ALREADY_STARTED: " ++ name))
      else (let (m', started) = start_process os name m in
          (m', if not started then fault (codes "SPAWN_ERROR: " ++ name) else is_true r))
]

unfoldable pub stop_handler : Os → Replying → Handler Manager
stop_handler os r [] m = (m, name_required)
stop_handler os r (name ∷ _) m = elim (find name m.process_map) [
  | none ↦ (m, fault (codes "BAD_NAME: " ++ name))
  | some p ↦
      if state_eq p.state stopped || (state_eq p.state exited || state_eq p.state fatal)
      then (m, fault (codes "NOT_RUNNING: " ++ name))
      else (let (m', is_stopped) = stop_process os name m in
          (m', if not is_stopped then fault (codes "NOT_RUNNING: " ++ name) else is_true r))
]

unfoldable pub start_all_handler : Os → Replying → Handler Manager
start_all_handler os r params m = all_info r (start_all os m)

unfoldable pub stop_all_handler : Os → Replying → Handler Manager
stop_all_handler os r params m = all_info r (stop_all os m)

unfoldable pub register_process_handlers : Os → Replying → Handlers Manager → Handlers Manager
register_process_handlers os r l =
    register_handler (codes "supervisor.stopAllProcesses") (stop_all_handler os r) (
      register_handler (codes "supervisor.startAllProcesses") (start_all_handler os r) (
        register_handler (codes "supervisor.stopProcess") (stop_handler os r) (
          register_handler (codes "supervisor.startProcess") (start_handler os r) (
            register_handler (codes "supervisor.getProcessInfo") (get_process_info r) (
              register_handler (codes "supervisor.getAllProcessInfo") (λ params m. all_info r m)
                l)))))
