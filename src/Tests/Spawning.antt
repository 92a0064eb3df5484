-- ===== src/Tests/Spawning.antt =====
-- Spawning: the parent's descriptors, the child's calls, the command line, the child's output.
use supervisorcpp.Prelude.{
  ◌+◌, ◌≤◌, ◌++◌, true, false, List, [], ◌∷◌, some, codes, ◌≡◌, refl, All, arith, Bytes,
  if◌then◌else◌,
}
use supervisorcpp.Logger.Writer.{Io, LogWriter}
use supervisorcpp.Logger.Writer.Bounds.{stream, IsAccurate}
use supervisorcpp.Process.Types.{Process, create_process}
use supervisorcpp.Process.Spawn.{
  SpawnAnswers, parent_side, fork_child, pipe_stderr, spawn, opened, closed, owned,
}
use supervisorcpp.Process.Descriptors.{spawn_balanced, spawn-kept}
use supervisorcpp.Process.Command.{
  parse_command, command_line, parse_command-command_line, parse_command-All, NonEmpty,
}
use supervisorcpp.Process.Child.{
  ChildAnswers, limited, setup_child_process, setup_child_process-MayExec, MayExec, has_exec,
  setup_working_directory, switch_user,
}
use supervisorcpp.Process.Capture.{read_to_end, read_to_end-concat, HoldsAll, concat}
use supervisorcpp.Tests.Data.{web, web_process, forks, faultless, faultless-IsFaultless, writer}

-- The process with a log of its output.
abbrev logged : Process
logged = record web_process {
  config = record web { stdout_log = record web.stdout_log { file = some (codes "/tmp/web.log") } };
  stdout_log_writer = some writer;
}

spawn_balanced_example :
    opened 5 (spawn forks logged).ops + owned 5 logged
    ≡ closed 5 (spawn forks logged).ops + owned 5 (spawn forks logged).process
spawn_balanced_example = spawn_balanced forks logged 5 refl refl

-- Where the begin of the first read throws, the descriptor is closed though the stream owns it.
abbrev begin_throws : SpawnAnswers
begin_throws = record forks { stdout_reads = false }

closed_and_owned :
    let s = spawn begin_throws logged in (closed 5 s.ops ≡ 1) × (owned 5 s.process ≡ 1)
unfolding spawn parent_side fork_child pipe_stderr create_process
closed_and_owned = (refl, refl)

spawn-kept_example :
    opened 5 (spawn begin_throws logged).ops + owned 5 logged
    ≤ closed 5 (spawn begin_throws logged).ops + owned 5 (spawn begin_throws logged).process
spawn-kept_example = spawn-kept begin_throws logged 5

-- An argument with a space, a quote and a backslash.
abbrev awkward : List Bytes
awkward = codes "/bin/echo" ∷ (codes "a b" ++ b'"' ∷ b'\\' ∷ []) ∷ []

parse_command-command_line_example : parse_command (command_line awkward) ≡ awkward
parse_command-command_line_example = parse_command-command_line awkward ((λ e. cc), ((λ e. cc), tt))

parse_command-All_example : All NonEmpty (parse_command (codes "echo  b "))
parse_command-All_example = parse_command-All (codes "echo  b ")

-- The supervisor runs as root, and the switch to `www` succeeds.
abbrev root : ChildAnswers
root = record {
  fd_limit = limited 5;
  chdir_ok = true;
  uid = 0;
  account = some (record { uid = 33; gid = 33 });
  initgroups_ok = true;
  setgid_ok = true;
  setuid_ok = true;
  real_uid = 33;
  effective_uid = 33;
  real_gid = 33;
  effective_gid = 33;
}

setup_child_process-MayExec_example :
    (has_exec (setup_child_process root web)
      ≡ (if (setup_working_directory root web).1 then (switch_user root web).1 else false))
    × (has_exec (setup_child_process root web) ≡ true → MayExec root web)
setup_child_process-MayExec_example = setup_child_process-MayExec root web

abbrev unlimited_writer : LogWriter
unlimited_writer = record writer { max_bytes = 0 }

unlimited_writer-IsAccurate : IsAccurate unlimited_writer
unlimited_writer-IsAccurate = record { opened = refl; there = refl; size_is = refl }

abbrev two_reads : List (Io × Bytes)
two_reads = (faultless, codes "c") ∷ (faultless, codes "de") ∷ []

read_to_end-concat_example :
    HoldsAll
      (read_to_end two_reads faultless (record { fd = some 5; log_writer = some unlimited_writer }))
      (stream unlimited_writer ++ concat two_reads)
read_to_end-concat_example =
    read_to_end-concat two_reads faultless unlimited_writer (some 5)
      (faultless-IsFaultless, (faultless-IsFaultless, tt)) faultless-IsFaultless refl
      unlimited_writer-IsAccurate (omega arith)
