-- ===== src/Manager/Stopped.antt =====
-- process_manager.cpp, `stop_process`: the state in which it leaves the process.
use supervisorcpp.Prelude.{◌+◌, Bool, true, Bytes, ◌≡◌, ◌++◌}
use supervisorcpp.Process.Types.{Process}
use supervisorcpp.Process.Life.{stop}
use supervisorcpp.Manager.Table.{Table, Manager, Os, replace}
use supervisorcpp.Manager.Waiting.{IsStopped}

-- The manager after the signal.
abbrev signaled : Os → Bytes → Manager → Process → Manager
signaled os name m p =
    let r = stop (os.kill_ok m.asked) (os.now m.asked) p in
    record {
      process_map = replace name r.0 m.process_map;
      sent = m.sent ++ r.1;
      asked = m.asked + 1;
    }

-- What `stop_process` reports, and the process that it leaves.
abbrev pub Stopped : Bytes → Manager × Bool → Type 0
Stopped name (m, reported) = (reported ≡ true) × IsStopped name m.process_map
