-- ===== src/Tests/Processes.antt =====
-- A process over its life.
use supervisorcpp.Prelude.{
  ℕ, true, false, [], ◌∷◌, pos, minus_one, codes, ◌≡◌, refl, All, arith, ltb_ℤ, leb_ℤ, bytes_eq,
}
use supervisorcpp.Process.Types.{
  Process, backoff, running, stopping, fatal, has_pid, create_process,
}
use supervisorcpp.Process.Spawn.{spawn, SpawnAnswers, parent_side, fork_child, pipe_stderr}
use supervisorcpp.Process.Life.{start, stop, kill, on_exit, update, exited_with, backoff_delay}
use supervisorcpp.Process.Invariant.{IsConsistent}
use supervisorcpp.Process.Reach.{
  IsSound, Reach-IsSound, Step-allowed, allowed, here, next, starts, stops, exits,
}
use supervisorcpp.Process.Backoff.{Attempts, try_all, try_all-FailsToSpawn}
use supervisorcpp.Process.Stopping.{ToChild, signals-ToChild, other_signals}
use supervisorcpp.Util.Secure.{any_equal}
use supervisorcpp.Tests.Data.{web, web_process, web_process-IsConsistent, forks, web_live}

again_pid : has_pid (start forks 7 (stop true 6 (start forks 5 web_process).0).0).0 ≡ true
unfolding start stop spawn parent_side fork_child pipe_stderr create_process
again_pid = refl

-- The old child exits behind a start in STOPPING.
Reach-IsSound_example :
    IsSound
      (on_exit 9 (exited_with 1) (start forks 7 (stop true 6 (start forks 5 web_process).0).0).0)
Reach-IsSound_example = Reach-IsSound web_process-IsConsistent (
    next (next (next (next here (starts forks 5 refl)) (stops true 6)) (starts forks 7 refl))
      (exits 9 (exited_with 1) again_pid))

Step-allowed_example :
    let q = (stop true 6 (start forks 5 web_process).0).0 in
    allowed (has_pid q) q.state (start forks 7 q).0.state ≡ true
Step-allowed_example =
    Step-allowed web_process-IsConsistent (next (next here (starts forks 5 refl)) (stops true 6))
      (starts forks 7 refl)

-- A start in STOPPING that fails leaves the old child tracked in BACKOFF.
child_left :
    let q = (start (record forks { child = minus_one }) 7 (web_live stopping)).0 in
    (q.state ≡ backoff) × (has_pid q ≡ true)
unfolding start spawn parent_side fork_child pipe_stderr create_process
child_left = (refl, refl)

-- A process with the child 42.
live-IsConsistent : IsConsistent (web_live running)
unfolding create_process
live-IsConsistent = ground arith

signals-ToChild_example :
    All (ToChild (web_live running)) (stop true 5 (web_live running)).1
    × All (ToChild (web_live running)) (kill 5 (web_live running)).1
    × All (ToChild (web_live running)) (update (λ n. pos 1) forks 5 (web_live running)).1
signals-ToChild_example =
    signals-ToChild true (λ n. pos 1) forks 5 (web_live running) live-IsConsistent

-- The process in BACKOFF.
abbrev waiting : ℕ → Process
waiting retries = record web_process { state = backoff; retry_count = retries }

abbrev no_fork : SpawnAnswers
no_fork = record forks { child = minus_one }

abbrev three_failures : Attempts
three_failures = (no_fork, 1) ∷ (no_fork, 2) ∷ (no_fork, 3) ∷ []

created_down : (web_process.retry_count ≡ 0) × (web_process.config.startretries ≡ pos 3)
unfolding create_process
created_down = (refl, refl)

try_all-FailsToSpawn_example :
    ((try_all three_failures (waiting 0)).retry_count ≡ 3)
    × ((try_all three_failures (waiting 0)).state ≡ fatal)
unfolding create_process
try_all-FailsToSpawn_example =
    try_all-FailsToSpawn three_failures (waiting 0) (refl, (refl, (refl, tt))) (λ e. cc) refl

waiting-IsConsistent : IsConsistent (waiting 1)
unfolding create_process
waiting-IsConsistent = ground arith

waited : leb_ℤ (backoff_delay (λ n. pos 1) 1) (pos 3) ≡ true
unfolding backoff_delay
waited = refl

forked : ltb_ℤ (spawn forks (web_live stopping)).child (pos 0) ≡ false
unfolding spawn parent_side fork_child pipe_stderr create_process
forked = refl

-- The live process with the stop signal USR1.
abbrev usr1_live : Process
usr1_live = record (web_live running) { config = record web { stopsignal = codes "USR1" } }

usr1_live-IsConsistent : IsConsistent usr1_live
unfolding create_process
usr1_live-IsConsistent = ground arith

usr1_other : any_equal usr1_live.config.stopsignal other_signals ≡ true
unfolding any_equal bytes_eq
usr1_other = refl
