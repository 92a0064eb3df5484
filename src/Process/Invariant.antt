-- ===== src/Process/Invariant.antt =====
-- process.cpp: what holds of a process between two operations, as long as none is started in STOPPING.
use supervisorcpp.Prelude.{ℕ, Bool, true, false, ℤ, pos, leb_ℤ, eq_ℤ, ◌⊎◌, ◌≡◌, ◌≢◌, refl, arith}
use supervisorcpp.Logger.Writer.{Io, Disk}
use supervisorcpp.Process.Types.{
  Process, ProgramConfig, State, starting, running, backoff, stopping, has_pid, elapsed_seconds,
  create_process,
}
use supervisorcpp.Process.Spawn.{SpawnAnswers}
use supervisorcpp.Process.Descriptors.{spawn-Keeps, spawn-child}
use supervisorcpp.Process.Life.{start, stop, kill, on_exit, update, update_in, WaitStatus}

-- The states in which a child is alive.
abbrev pub is_live : State → Bool
is_live starting = true
is_live running = true
is_live stopping = true
is_live _ = false

pub record IsConsistent (p : Process) : Type 0 where
  -- A child is tracked in exactly the live states.
  pub live_pid : has_pid p ≡ is_live p.state
  -- A process that waits for its next attempt has not used up its retries.
  pub budget :
      p.state ≡ backoff
      → (p.retry_count ≡ 0) ⊎ (leb_ℤ p.config.startretries (pos p.retry_count) ≡ false)
  -- A process that came up starts counting anew.
  pub fresh : p.state ≡ running → p.retry_count ≡ 0

-- `fork` does not return 0 in the parent.
abbrev pub IsParent : SpawnAnswers → Type 0
IsParent a = eq_ℤ a.child (pos 0) ≡ false

pub create-IsConsistent :
    (io : Io) (out err : Disk) (now : ℕ) (c : ProgramConfig)
    → IsConsistent (create_process io out err now c)
unfolding create_process
create-IsConsistent io out err now c = ground arith

-- `start` in any state but STOPPING, in which it would replace or leave the old child.
pub start-IsConsistent :
    (a : SpawnAnswers) (now : ℕ) (p : Process)
    → IsParent a
    → p.state ≢ stopping
    → IsConsistent p
    → IsConsistent (start a now p).0
unfolding start
start-IsConsistent a now p parent ok h = record {
  live_pid = ground (arith, spawn-Keeps a p, spawn-child a p);
  budget = ground (arith, spawn-Keeps a p, spawn-child a p);
  fresh = ground (arith, spawn-Keeps a p, spawn-child a p);
}

pub stop-IsConsistent :
    (kill_ok : Bool) (now : ℕ) (p : Process) → IsConsistent p → IsConsistent (stop kill_ok now p).0
unfolding stop
stop-IsConsistent kill_ok now p h = ground arith

pub kill-IsConsistent : (now : ℕ) (p : Process) → IsConsistent p → IsConsistent (kill now p).0
unfolding kill
kill-IsConsistent now p h = ground arith

pub on_exit-IsConsistent :
    (now : ℕ) (status : WaitStatus) (p : Process)
    → has_pid p ≡ true
    → IsConsistent p
    → IsConsistent (on_exit now status p)
unfolding on_exit
on_exit-IsConsistent now status p child h = ground arith

update_in-IsConsistent :
    (s : State) (wide_shift : ℕ → ℤ) (a : SpawnAnswers) (now elapsed : ℕ) (p : Process)
    → p.state ≡ s
    → IsParent a
    → IsConsistent p
    → IsConsistent (update_in s wide_shift a now elapsed p).0
unfolding update_in
update_in-IsConsistent starting wide_shift a now elapsed p e parent h = ground arith
update_in-IsConsistent backoff wide_shift a now elapsed p e parent h =
    ground (arith, start-IsConsistent a now p parent (λ s. cc) h)
update_in-IsConsistent _ wide_shift a now elapsed p e parent h = ground arith

pub update-IsConsistent :
    (wide_shift : ℕ → ℤ) (a : SpawnAnswers) (now : ℕ) (p : Process)
    → IsParent a
    → IsConsistent p
    → IsConsistent (update wide_shift a now p).0
unfolding update
update-IsConsistent wide_shift a now p parent h =
    update_in-IsConsistent p.state wide_shift a now (elapsed_seconds now p.state_change_time) p refl
      parent h
