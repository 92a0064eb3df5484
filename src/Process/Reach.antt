-- ===== src/Process/Reach.antt =====
-- process.cpp: the operations as steps, and what every sequence of them keeps.
use supervisorcpp.Prelude.{
  ℕ, Bool, true, false, ◌||◌, ◌&&◌, not, ℤ, pos, leb_ℤ, ◌⊎◌, ◌≡◌, refl, arith,
}
use supervisorcpp.Process.Types.{
  Process, State, starting, running, backoff, stopping, stopped, exited, fatal, state_eq, has_pid,
  elapsed_seconds,
}
use supervisorcpp.Process.Spawn.{SpawnAnswers}
use supervisorcpp.Process.Descriptors.{spawn-Keeps, spawn-child}
use supervisorcpp.Process.Life.{start, stop, kill, on_exit, update, update_in, WaitStatus}
use supervisorcpp.Process.Invariant.{IsConsistent, IsParent, is_live}

-- One operation, in whatever state. `handle_sigchld_` reports only the exit of a tracked child.
pub data Step (p : Process) : Process → Type 0 where
  starts : (a : SpawnAnswers) (now : ℕ) → IsParent a → Step p (start a now p).0
  stops : (kill_ok : Bool) (now : ℕ) → Step p (stop kill_ok now p).0
  kills : (now : ℕ) → Step p (kill now p).0
  exits : (now : ℕ) (status : WaitStatus) → has_pid p ≡ true → Step p (on_exit now status p)
  updates :
      (wide_shift : ℕ → ℤ) (a : SpawnAnswers) (now : ℕ)
      → IsParent a
      → Step p (update wide_shift a now p).0

pub data Reach (p : Process) : Process → Type 0 where
  here : Reach p p
  next : {q r : Process} → Reach p q → Step q r → Reach p r

-- What holds also behind a start in STOPPING that failed, which leaves the old child tracked in
-- BACKOFF or FATAL.
pub record IsSound (p : Process) : Type 0 where
  pub live_pid : is_live p.state ≡ true → has_pid p ≡ true
  pub stopped_pid : p.state ≡ stopped → has_pid p ≡ false
  pub exited_pid : p.state ≡ exited → has_pid p ≡ false
  pub budget :
      p.state ≡ backoff
      → (p.retry_count ≡ 0) ⊎ (leb_ℤ p.config.startretries (pos p.retry_count) ≡ false)
  pub fresh : p.state ≡ running → p.retry_count ≡ 0

start-IsSound :
    (a : SpawnAnswers) (now : ℕ) (p : Process) → IsParent a → IsSound p → IsSound (start a now p).0
unfolding start
start-IsSound a now p parent h = record {
  live_pid = ground (arith, spawn-Keeps a p, spawn-child a p);
  stopped_pid = ground (arith, spawn-Keeps a p, spawn-child a p);
  exited_pid = ground (arith, spawn-Keeps a p, spawn-child a p);
  budget = ground (arith, spawn-Keeps a p, spawn-child a p);
  fresh = ground (arith, spawn-Keeps a p, spawn-child a p);
}

update_in-IsSound :
    (s : State) (wide_shift : ℕ → ℤ) (a : SpawnAnswers) (now elapsed : ℕ) (p : Process)
    → p.state ≡ s
    → IsParent a
    → IsSound p
    → IsSound (update_in s wide_shift a now elapsed p).0
unfolding update_in
update_in-IsSound starting wide_shift a now elapsed p e parent h = ground arith
update_in-IsSound backoff wide_shift a now elapsed p e parent h =
    ground (arith, start-IsSound a now p parent h)
update_in-IsSound _ wide_shift a now elapsed p e parent h = ground arith

Step-IsSound : {p q : Process} → Step p q → IsSound p → IsSound q
unfolding stop kill on_exit update
Step-IsSound {p} (starts a now parent) h = start-IsSound a now p parent h
Step-IsSound {p} (stops kill_ok now) h = ground arith
Step-IsSound {p} (kills now) h = ground arith
Step-IsSound {p} (exits now status child) h = ground arith
Step-IsSound {p} (updates wide_shift a now parent) h =
    update_in-IsSound p.state wide_shift a now (elapsed_seconds now p.state_change_time) p refl
      parent h

-- After any sequence of operations, in whatever states, on a consistent process: in STARTING,
-- RUNNING and STOPPING a child is tracked, in STOPPED and EXITED none; in BACKOFF the retries are
-- not used up, or none is counted; in RUNNING none is counted. Nothing is said of a child in BACKOFF
-- and FATAL, since a start in STOPPING that fails leaves the old one tracked there. `fork` does not
-- return 0 in the parent, and only a tracked child is reported to exit.
pub Reach-IsSound : {p q : Process} → IsConsistent p → Reach p q → IsSound q
Reach-IsSound h here = ground arith
Reach-IsSound h (next r st) = Step-IsSound st (Reach-IsSound h r)

-- The arrows of the state machine, by whether a child is tracked; staying is always allowed. The
-- operations allow more than the documentation draws: a start leads from STOPPING to STARTING,
-- BACKOFF and FATAL, and where it failed, the child that is left in BACKOFF or FATAL can be stopped,
-- killed, or exit.
unfoldable pub allowed : Bool → State → State → Bool
allowed child stopped s =
    state_eq s stopped || state_eq s starting || state_eq s backoff || state_eq s fatal
allowed child starting s = true
allowed child running s = not (state_eq s starting) && not (state_eq s fatal)
allowed child backoff s =
    state_eq s backoff
    || state_eq s starting
    || state_eq s fatal
    || (child && not (state_eq s running))
allowed child stopping s = not (state_eq s running) && not (state_eq s exited)
allowed child exited s =
    state_eq s exited || state_eq s starting || state_eq s backoff || state_eq s fatal
allowed child fatal s =
    state_eq s fatal
    || state_eq s starting
    || state_eq s backoff
    || (child && not (state_eq s running))

start-allowed :
    (s : State) (a : SpawnAnswers) (now : ℕ) (p : Process)
    → p.state ≡ s
    → allowed (has_pid p) s (start a now p).0.state ≡ true
unfolding allowed start
start-allowed stopped a now p e = ground (arith, spawn-Keeps a p)
start-allowed _ a now p e = ground (arith, spawn-Keeps a p)

update-allowed :
    (s : State) (wide_shift : ℕ → ℤ) (a : SpawnAnswers) (now elapsed : ℕ) (p : Process)
    → p.state ≡ s
    → allowed (has_pid p) s (update_in s wide_shift a now elapsed p).0.state ≡ true
unfolding allowed update_in
update-allowed backoff wide_shift a now elapsed p e =
    ground (arith, start-allowed backoff a now p e)
update-allowed _ wide_shift a now elapsed p e = ground arith

sound-allowed : {q r : Process} → Step q r → IsSound q → allowed (has_pid q) q.state r.state ≡ true
unfolding allowed stop kill on_exit update
sound-allowed {q} (starts a now qarent) h = start-allowed q.state a now q refl
sound-allowed {q} (stops kill_ok now) h = ground arith
sound-allowed {q} (kills now) h = ground arith
sound-allowed {q} (exits now status child) h = ground arith
sound-allowed {q} (updates wide_shift a now qarent) h =
    update-allowed q.state wide_shift a now (elapsed_seconds now q.state_change_time) q refl

-- Every operation, in whatever state, on a process that such operations left follows an arrow of the
-- state machine: so RUNNING comes only from STARTING, EXITED only from states with a child, and
-- a process in BACKOFF or FATAL without a child only starts.
pub Step-allowed :
    {p q r : Process}
    → IsConsistent p
    → Reach p q
    → Step q r
    → allowed (has_pid q) q.state r.state ≡ true
Step-allowed h reach st = sound-allowed st (Reach-IsSound h reach)
