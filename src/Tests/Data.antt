-- ===== src/Tests/Data.antt =====
-- The programs, answers and files that the tests run on.
use supervisorcpp.Prelude.{
  ◌*◌, ◌==◌, if◌then◌else◌, true, false, [], ◌∷◌, none, some, pos, codes, refl, Bytes,
}
use supervisorcpp.Logger.Writer.{Io, Disk, LogWriter}
use supervisorcpp.Logger.Writer.Rotation.{IsFaultless}
use supervisorcpp.Logger.Writer.Bounds.{IsAccurate}
use supervisorcpp.Process.Types.{Log, Process, ProgramConfig, State, create_process}
use supervisorcpp.Process.Spawn.{SpawnAnswers}
use supervisorcpp.Process.Life.{exited_with}
use supervisorcpp.Process.Invariant.{IsConsistent, create-IsConsistent}
use supervisorcpp.Manager.Table.{Manager, Os, reaps, ticks}
use supervisorcpp.Manager.Control.{LogFiles}

abbrev pub faultless : Io
faultless = record {
  open_ok = true;
  size_ok = true;
  write_ok = true;
  remove_ok = true;
  rename_ok = λ i. true;
}

pub faultless-IsFaultless : IsFaultless faultless
faultless-IsFaultless = record {
  opens = refl;
  sizes = refl;
  writes = refl;
  removes = refl;
  renames = λ i. refl;
}

-- A log with one old backup.
abbrev pub old_disk : Disk
old_disk = record {
  logfile = some (codes "old");
  backup = λ i. if i == 2 then some (codes "older") else none;
}

abbrev pub writer : LogWriter
writer = record {
  max_bytes = 4;
  backups = pos 2;
  is_open = true;
  current_size = 3;
  pending_buffer = codes "ab";
  disk = old_disk;
}

pub writer-IsAccurate : IsAccurate writer
writer-IsAccurate = record { opened = refl; there = refl; size_is = refl }

abbrev pub no_log : Log
no_log = record { file = none; file_maxbytes = 0; file_backups = pos 0 }

abbrev pub program : Bytes → ProgramConfig
program name = record {
  name = name;
  command = codes "/bin/true";
  environment = [];
  directory = none;
  autorestart = true;
  user = codes "www";
  stdout_log = no_log;
  stderr_log = no_log;
  redirect_stderr = false;
  startsecs = pos 1;
  startretries = pos 3;
  stopwaitsecs = pos 10;
  stopsignal = codes "TERM";
  umask = none;
}

abbrev pub web : ProgramConfig
web = program (codes "web")

abbrev pub web_process : Process
web_process = create_process faultless old_disk old_disk 0 web

pub web_process-IsConsistent : IsConsistent web_process
web_process-IsConsistent = create-IsConsistent faultless old_disk old_disk 0 web

abbrev pub forks : SpawnAnswers
forks = record {
  stdout_pipe = some (record { read_end = 5; write_end = 6 });
  stderr_pipe = some (record { read_end = 7; write_end = 8 });
  child = pos 42;
  stdout_async = true;
  stdout_reads = true;
  stderr_reads = true;
  stderr_async = true;
  error_text = [];
}

-- The child exits in the first turn of each wait, and the timer fires in the second.
abbrev pub os : Os
os = record {
  now = λ n. n * 1000000000;
  spawns = λ n. forks;
  kill_ok = λ n. true;
  wide_shift = λ n. pos 1;
  turns = λ n. (n, reaps ((pos 42, exited_with 0) ∷ [])) ∷ (n, ticks) ∷ [];
}

abbrev pub files : LogFiles
files = record { io = faultless; stdout_disk = old_disk; stderr_disk = old_disk }

-- The process in a chosen state, with or without the child 42.
abbrev pub web_live : State → Process
web_live s = record web_process { state = s; pid = pos 42 }

abbrev pub web_manager : Process → Manager
web_manager p = record { process_map = (codes "web", p) ∷ []; sent = []; asked = 0 }
