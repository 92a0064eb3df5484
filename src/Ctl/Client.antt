-- ===== src/Ctl/Client.antt =====
-- supervisor-app/src/ctl/supervisorctl.cpp: which socket is used, and what is run over it. The arguments are those that are left by the parser of options.
use supervisorcpp.Prelude.{
  List, [], ◌∷◌, ◌++◌, Option, none, some, if◌then◌else◌, drop, ℤ, pos, Bytes, codes, begins, Tried,
  returns, throws,
}
use supervisorcpp.PropertyTree.{PropertyTree}
use supervisorcpp.Config.Parser.{strip_lines}
use supervisorcpp.Args.{Given, parse_args, value_of}
use supervisorcpp.Logger.Levels.{Levels}
use supervisorcpp.Ctl.Call.{Called}
use supervisorcpp.Ctl.Worlds.{◌>>=◌, Command, done, complain}
use supervisorcpp.Ctl.Commands.{execute_command, interactive_mode}

abbrev default_url : Bytes
default_url = codes "unix:///run/supervisord.sock"

-- The path of the socket; none where the URL is of another kind.
unfoldable pub socket_path : Bytes → Option Bytes
unfolding begins
socket_path serverurl =
    if begins (codes "unix://") serverurl
    then some (drop 7 serverurl)
    else if begins (codes "/") serverurl
    then some serverurl
    else none

module _ (t : PropertyTree) where
  open t use {Tree, read_ini, get_string}

  -- The URL of the tree of a configuration.
  unfoldable pub tree_url : Tree → Bytes
  tree_url tree = elim (get_string (codes "supervisorctl.serverurl") tree) [
    | none ↦ default_url
    | some url ↦ url
  ]

  -- The URL: the option, or the configuration, or the default. `text` is what the file of the
  -- configuration holds, nothing where it does not open. With the warning, where there is one.
  unfoldable pub server_url : Option Bytes → Bytes → Bytes × Bytes
  unfolding strip_lines tree_url
  server_url (some url) text = (url, [])
  server_url none text = elim (read_ini (strip_lines [] text)) [
    | returns tree ↦ (tree_url tree, [])
    | throws e ↦ (default_url, codes "Warning: Could not load config: " ++ (e ++ codes "\n"))
  ]

  -- `supervisorctl_main` behind the options: one command, or the interactive mode over the lines of
  -- the input.
  unfoldable pub run_client :
      {S : Type 0}
      → (Bytes → Bytes → List Bytes → S → S × Called t)
      → ℤ
      → List Bytes
      → Bytes × Bytes
      → List Bytes
      → Command S ℤ
  unfolding socket_path execute_command interactive_mode
  run_client call_method pid lines (serverurl, warning) args = elim (socket_path serverurl) [
    | none ↦ (do
      _ ← complain (
          warning
          ++ (codes "Error: '"
              ++ (serverurl
                  ++ codes "' is not a valid server URL; use a unix:// URL or a socket path\n")))
      done (pos 1))
    | some path ↦ (do
      _ ← complain warning
      elim args [
        | [] ↦ (do _ ← interactive_mode t (call_method path) pid lines; done (pos 0))
        | method ∷ rest ↦ execute_command t (call_method path) pid method rest
      ])
  ]

  -- `supervisorctl_main`, over what Boost.Program_options finds and what the files of the
  -- configurations hold; the version and the help that are shown are left out.
  unfoldable pub supervisorctl_main :
      {S : Type 0}
      → (List Bytes → Tried Given)
      → (Bytes → Bytes)
      → (Bytes → Bytes → List Bytes → S → S × Called t)
      → ℤ
      → List Bytes
      → List Bytes
      → Levels
      → Command S ℤ
  unfolding parse_args server_url run_client value_of
  supervisorctl_main parse_options text call_method pid lines args levels =
      elim (parse_args parse_options args levels).1 [
        | throws what ↦ (do _ ← complain (codes "Error: " ++ (what ++ codes "\n")); done (pos 1))
        | returns none ↦ done (pos 0)
        | returns (some a) ↦
            run_client call_method pid lines
              (server_url (value_of (codes "serverurl") a.values) (text a.configuration)) a.args
      ]
