-- ===== src/Ctl/Commands.antt =====
-- supervisorctl.h: the commands, `execute_command` and the interactive mode.
pub mod Outcomes
pub mod Restart
use supervisorcpp.Prelude.{
  ◌-◌, Bool, true, false, List, [], ◌∷◌, ◌++◌, Option, none, some, if◌then◌else◌, ltb, ◌+◌, length,
  ℤ, pos, minus_one, Bytes, codes, bytes_eq, is_space, eq_ℤ, trim_left, Tried, returns, throws,
}
use supervisorcpp.PropertyTree.{PropertyTree}
use supervisorcpp.Config.Size.{trim_right}
use supervisorcpp.Ctl.Worlds.{ok, error, Command, ◌>>=◌, done, raise, print, complain, handle}
use supervisorcpp.Ctl.Infos.{
  ProcessInfo, padded, print_process_info, parse_process_info, parse_process_info_array,
}
use supervisorcpp.Ctl.Call.{Failure, xmlrpc_error, runtime_error, what, Called, answered, fails}

-- `boost::split` at space, runs of it as one: the token so far, whether space came just before, and
-- what is left.
unfoldable pub split_tokens : Bytes → Bool → Bytes → List Bytes
split_tokens token spaced [] = token ∷ []
split_tokens token spaced (c ∷ r) =
    let skipped = split_tokens token true r in
    let next = split_tokens [] true r in
    let longer = split_tokens (token ++ c ∷ []) false r in
    if is_space c then (if spaced then skipped else token ∷ next) else longer

-- The row of `commands_` that a name stands for.
pub data Method : Type 0 where
  status start stop restart shutdown reload help exit : Method

-- `method`, `desc_args` and `desc` of a row.
pub record CommandInfo : Type 0 where
  pub method : Bytes
  pub desc_args : Bytes
  pub desc : Bytes
  pub func : Method

abbrev pub commands : List CommandInfo
commands =
    record {
      method = codes "status";
      desc_args = codes "[name]";
      desc = codes "Show process status";
      func = status;
    }
    ∷ record {
      method = codes "start";
      desc_args = codes "<name|all>";
      desc = codes "Start process(es)";
      func = start;
    }
    ∷ record {
      method = codes "stop";
      desc_args = codes "<name|all>";
      desc = codes "Stop process(es)";
      func = stop;
    }
    ∷ record {
      method = codes "restart";
      desc_args = codes "<name|all>";
      desc = codes "Restart process(es)";
      func = restart;
    }
    ∷ record {
      method = codes "shutdown";
      desc_args = [];
      desc = codes "Shutdown supervisord";
      func = shutdown;
    }
    ∷ record {
      method = codes "reload";
      desc_args = [];
      desc = codes "Reload configuration";
      func = reload;
    }
    ∷ record { method = codes "help"; desc_args = []; desc = codes "Show this help"; func = help }
    ∷ record {
      method = codes "exit";
      desc_args = [];
      desc = codes "Exit supervisorctl";
      func = exit;
    }
    ∷ record { method = codes "quit"; desc_args = []; desc = []; func = exit }
    ∷ []

unfoldable pub find_command : Bytes → List CommandInfo → Option Method
find_command name [] = none
find_command name (row ∷ r) =
    if bytes_eq row.method name then some row.func else find_command name r

-- One row of the help; the width is that of the code's `w`.
unfoldable pub help_rows : List CommandInfo → Bytes
unfolding padded
help_rows [] = []
help_rows (row ∷ r) =
    let rest = help_rows r in
    let w = length row.method + length row.desc_args in
    let width = if ltb w 22 then 22 - length row.method - 1 else w in
    elim row.desc [
      | [] ↦ rest
      | c ∷ s ↦
          codes "  "
          ++ (row.method
              ++ (codes " " ++ (padded width row.desc_args ++ ((c ∷ s) ++ (codes "\n" ++ rest)))))
    ]

module _ (t : PropertyTree) {S : Type 0} (call_method : Bytes → List Bytes → S → S × Called t) where
  open t use {Tree}

  unfoldable pub call : Bytes → List Bytes → Command S Tree
  call method params w =
      let (s, r) = call_method method params w.daemon in
      (record w { daemon = s }, elim r [ answered tree ↦ ok tree | fails e ↦ error e ])

  unfoldable pub cmd_exit : List Bytes → Command S ℤ
  cmd_exit args = done minus_one

  unfoldable pub cmd_help : List Bytes → Command S ℤ
  unfolding help_rows
  cmd_help args = do _ ← print (codes "Commands:\n" ++ help_rows commands); done (pos 0)

  unfoldable pub cmd_reload : List Bytes → Command S ℤ
  unfolding call
  cmd_reload args = do
    _ ← print (codes "Reloading supervisord configuration...\n")
    _ ← call (codes "supervisor.reloadConfig") []
    _ ← print (codes "Configuration reloaded\n")
    done (pos 0)

  unfoldable pub cmd_shutdown : List Bytes → Command S ℤ
  unfolding call
  cmd_shutdown args = do
    _ ← print (codes "Shutting down supervisord\n")
    _ ← call (codes "supervisor.shutdown") []
    done (pos 0)

  abbrev pub name_required : Command S ℤ
  name_required = do _ ← complain (codes "Error: process name required\n"); done (pos 1)

  -- One call for all processes, or one for the named.
  unfoldable pub cmd_start : List Bytes → Command S ℤ
  unfolding call bytes_eq
  cmd_start [] = name_required
  cmd_start (name ∷ _) =
      if bytes_eq name (codes "all")
      then (do
        _ ← call (codes "supervisor.startAllProcesses") []
        _ ← print (codes "All processes started\n")
        done (pos 0))
      else (do
        _ ← call (codes "supervisor.startProcess") (name ∷ [])
        _ ← print (name ++ codes ": started\n")
        done (pos 0))

  unfoldable pub cmd_stop : List Bytes → Command S ℤ
  unfolding call bytes_eq
  cmd_stop [] = name_required
  cmd_stop (name ∷ _) =
      if bytes_eq name (codes "all")
      then (do
        _ ← call (codes "supervisor.stopAllProcesses") []
        _ ← print (codes "All processes stopped\n")
        done (pos 0))
      else (do
        _ ← call (codes "supervisor.stopProcess") (name ∷ [])
        _ ← print (name ++ codes ": stopped\n")
        done (pos 0))

  -- An `XmlRpcError` with the code `NOT_RUNNING` is taken; what else is thrown goes on.
  unfoldable pub tolerate_not_running : Failure → Command S (Unit {0})
  unfolding bytes_eq
  tolerate_not_running (xmlrpc_error code name message) =
      if bytes_eq code (codes "NOT_RUNNING")
      then done tt
      else raise (xmlrpc_error code name message)
  tolerate_not_running (runtime_error message) = raise (runtime_error message)

  unfoldable pub stop_tolerant : Bytes → Command S (Unit {0})
  unfolding call handle tolerate_not_running
  stop_tolerant name =
      handle (call (codes "supervisor.stopProcess") (name ∷ []) >>= λ _. done tt)
        tolerate_not_running

  unfoldable pub cmd_restart : List Bytes → Command S ℤ
  unfolding call bytes_eq stop_tolerant
  cmd_restart [] = name_required
  cmd_restart (name ∷ _) =
      if bytes_eq name (codes "all")
      then (do
        _ ← call (codes "supervisor.stopAllProcesses") []
        _ ← call (codes "supervisor.startAllProcesses") []
        _ ← print (codes "All processes restarted\n")
        done (pos 0))
      else (do
        _ ← stop_tolerant name
        _ ← call (codes "supervisor.startProcess") (name ∷ [])
        _ ← print (name ++ codes ": restarted\n")
        done (pos 0))

  abbrev parsed : Tried (List ProcessInfo) → Command S (List ProcessInfo)
  parsed (returns infos) = done infos
  parsed (throws e) = raise (runtime_error (codes "Failed to parse response: " ++ e))

  unfoldable pub status_all : ℤ → Command S ℤ
  unfolding call parse_process_info_array print_process_info
  status_all pid = do
    tree ← call (codes "supervisor.getAllProcessInfo") []
    infos ← parsed (parse_process_info_array t pid tree)
    _ ← print (print_process_info infos)
    done (pos 0)

  unfoldable pub cmd_status : ℤ → List Bytes → Command S ℤ
  unfolding call bytes_eq parse_process_info print_process_info status_all
  cmd_status pid [] = status_all pid
  cmd_status pid (name ∷ _) = if bytes_eq name (codes "all") then status_all pid else (do
    tree ← call (codes "supervisor.getProcessInfo") (name ∷ [])
    infos ← parsed (parse_process_info t pid tree)
    _ ← print (print_process_info infos)
    done (pos 0))

  unfoldable pub run_command : ℤ → Method → List Bytes → Command S ℤ
  unfolding cmd_status cmd_start cmd_stop cmd_restart cmd_shutdown cmd_reload cmd_help cmd_exit
  run_command pid status = cmd_status pid
  run_command pid start = cmd_start
  run_command pid stop = cmd_stop
  run_command pid restart = cmd_restart
  run_command pid shutdown = cmd_shutdown
  run_command pid reload = cmd_reload
  run_command pid help = cmd_help
  run_command pid exit = cmd_exit

  -- The `try` block of `execute_command`.
  unfoldable pub look_up : ℤ → Bytes → List Bytes → Command S ℤ
  unfolding find_command run_command
  look_up pid method args = elim (find_command method commands) [
    | some m ↦ run_command pid m args
    | none ↦ (do
      _ ← complain (
          codes "Error: unknown command '"
          ++ (method ++ codes "'\nUse 'help' for available commands\n"))
      done (pos 1))
  ]

  unfoldable pub report : Failure → Command S ℤ
  report e = do _ ← complain (codes "Error: " ++ (what e ++ codes "\n")); done (pos 1)

  unfoldable pub execute_command : ℤ → Bytes → List Bytes → Command S ℤ
  unfolding look_up handle report
  execute_command pid [] args = done (pos 0)
  execute_command pid (c ∷ method) args = handle (look_up pid (c ∷ method) args) report

  -- One line of the interactive mode: whether the loop goes on.
  unfoldable pub run_line : ℤ → Bytes → Command S Bool
  unfolding trim_left trim_right split_tokens execute_command
  run_line pid line = elim (trim_right (trim_left line)) [
    | [] ↦ done true
    | c ∷ r ↦ elim (split_tokens [] false (c ∷ r)) [
      | [] ↦ done true
      | method ∷ args ↦ (do
        code ← execute_command pid method args
        done (if eq_ℤ code minus_one then false else true))
    ]
  ]

  -- `interactive_mode`, over the lines of the input.
  unfoldable pub interactive_mode : ℤ → List Bytes → Command S (Unit {0})
  unfolding run_line
  interactive_mode pid [] = do _ ← print (codes "supervisor> "); print (codes "\n")
  interactive_mode pid (line ∷ r) = do
    _ ← print (codes "supervisor> ")
    more ← run_line pid line
    elim more [ true ↦ interactive_mode pid r | false ↦ print (codes "\n") ]
