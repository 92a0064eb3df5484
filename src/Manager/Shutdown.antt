-- ===== src/Manager/Shutdown.antt =====
-- process_manager.cpp, `stop_all`, which the destructor calls as well: what it leaves running.
use supervisorcpp.Prelude.{ℕ, suc, false, [], ◌∷◌, ◌≡◌, refl, arith, inl, inr, Bool-cases}
use supervisorcpp.Process.Types.{Process, has_pid}
use supervisorcpp.Process.Life.{kill}
use supervisorcpp.Manager.Table.{Table, Manager, Os, sweep}
use supervisorcpp.Manager.Loop.{has_running_processes}
use supervisorcpp.Manager.Control.{stop_all, force_kill}

force_kill-has_pid : (os : Os) (n : ℕ) (p : Process) → has_pid (force_kill os n p).0 ≡ false
unfolding force_kill kill
force_kill-has_pid os n p = ground arith

sweep-force_kill :
    (os : Os) (n : ℕ) (t : Table) → has_running_processes (sweep (force_kill os) n t).0 ≡ false
unfolding sweep has_running_processes
sweep-force_kill os n [] = refl
sweep-force_kill os n ((k, p) ∷ r) =
    ground (arith, force_kill-has_pid os n p, sweep-force_kill os (suc n) r)

-- Whatever the processes do and however long they take, no process has a child after `stop_all`.
pub stop_all-has_running_processes :
    (os : Os) (m : Manager) → has_running_processes (stop_all os m).process_map ≡ false
unfolding stop_all
stop_all-has_running_processes os m = elim (Bool-cases (has_running_processes m.process_map)) [
  | inl some_run ↦ rw some_run (sweep-force_kill os _ _)
  | inr none_runs ↦ rw none_runs none_runs
]
