-- ===== src/Manager/Steady.antt =====
-- process_manager.cpp: the operations on all processes, seen through Manager/Shape.
use supervisorcpp.Prelude.{ℕ, ◌≡◌, ◌∙◌, arith, inl, inr, Bool-cases}
use supervisorcpp.Process.Types.{Process, has_pid}
use supervisorcpp.Process.Life.{kill}
use supervisorcpp.Manager.Table.{Manager, Os}
use supervisorcpp.Manager.Loop.{has_running_processes, reap_until}
use supervisorcpp.Manager.Control.{start_all, stop_all, stop_live, force_kill}
use supervisorcpp.Manager.Shape.{shape, sweep-shape, wait_turns-shape, start-config, stop-config}

kill-config : (now : ℕ) (p : Process) → (kill now p).0.config ≡ p.config
unfolding kill
kill-config now p = ground arith

force_kill-config : (os : Os) (n : ℕ) (p : Process) → (force_kill os n p).0.config ≡ p.config
unfolding force_kill
force_kill-config os n p = kill-config (os.now n) p

stop_live-config : (os : Os) (n : ℕ) (p : Process) → (stop_live os n p).0.config ≡ p.config
unfolding stop_live
stop_live-config os n p = elim (Bool-cases (has_pid p)) [
  | inl live ↦ rw live (stop-config (os.kill_ok n) (os.now n) p)
  | inr down ↦ rw down
]

pub start_all-shape :
    (os : Os) (m : Manager) → shape (start_all os m).process_map ≡ shape m.process_map
unfolding start_all
start_all-shape os m =
    sweep-shape _ m.asked m.process_map (λ n p. start-config (os.spawns n) (os.now n) p)

pub stop_all-shape :
    (os : Os) (m : Manager) → shape (stop_all os m).process_map ≡ shape m.process_map
unfolding stop_all reap_until
stop_all-shape os m = elim (Bool-cases (has_running_processes m.process_map)) [
  | inl busy ↦ rw busy (
      sweep-shape (force_kill os) _ _ (force_kill-config os)
      ∙ wait_turns-shape os _ has_running_processes _ _
      ∙ sweep-shape (stop_live os) _ _ (stop_live-config os))
  | inr idle ↦ rw idle
]
