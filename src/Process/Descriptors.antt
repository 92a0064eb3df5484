-- ===== src/Process/Descriptors.antt =====
-- process.cpp, `spawn_`: what it leaves alone, and where the descriptors go.
use supervisorcpp.Prelude.{
  ℕ, true, ◌+◌, ◌≤◌, List, [], ◌∷◌, ◌++◌, Option, minus_one, ◌≡◌, ◌⊎◌, refl, arith,
}
use supervisorcpp.Process.Types.{Process}
use supervisorcpp.Process.Spawn.{
  SpawnAnswers, Pipe, FdOp, opens, closes, spawn, parent_side, opened, closed, owned,
}

-- The fields that `spawn_` has no business with.
pub record Keeps (p q : Process) : Type 0 where
  pub config_is : q.config ≡ p.config
  pub state_is : q.state ≡ p.state
  pub pid_is : q.pid ≡ p.pid
  pub exitstatus_is : q.exitstatus ≡ p.exitstatus
  pub retry_count_is : q.retry_count ≡ p.retry_count
  pub start_time_is : q.start_time ≡ p.start_time
  pub change_time_is : q.state_change_time ≡ p.state_change_time
  pub stdout_writer_is : q.stdout_log_writer ≡ p.stdout_log_writer
  pub stderr_writer_is : q.stderr_log_writer ≡ p.stderr_log_writer

parent_side-Keeps :
    (a : SpawnAnswers) (p : Process) (out err : Option Pipe) (ops : List FdOp)
    → Keeps p (parent_side a p out err ops).process
unfolding parent_side
parent_side-Keeps a p out err ops = record {
  config_is = refl;
  state_is = refl;
  pid_is = refl;
  exitstatus_is = refl;
  retry_count_is = refl;
  start_time_is = refl;
  change_time_is = refl;
  stdout_writer_is = refl;
  stderr_writer_is = refl;
}

pub spawn-Keeps : (a : SpawnAnswers) (p : Process) → Keeps p (spawn a p).process
unfolding spawn
spawn-Keeps a p = record {
  config_is = ground arith;
  state_is = ground arith;
  pid_is = ground arith;
  exitstatus_is = ground arith;
  retry_count_is = ground arith;
  start_time_is = ground arith;
  change_time_is = ground arith;
  stdout_writer_is = ground arith;
  stderr_writer_is = ground arith;
}

-- A child, or the error value.
pub spawn-child :
    (a : SpawnAnswers) (p : Process)
    → ((spawn a p).child ≡ a.child) ⊎ ((spawn a p).child ≡ minus_one)
unfolding spawn
spawn-child a p = ground arith

opened-append : (fd : ℕ) (xs ys : List FdOp) → opened fd (xs ++ ys) ≡ opened fd xs + opened fd ys
opened-append fd [] ys = omega arith
opened-append fd (opens x ∷ xs) ys = omega (arith, opened-append fd xs ys)
opened-append fd (closes x ∷ xs) ys = omega (arith, opened-append fd xs ys)

closed-append : (fd : ℕ) (xs ys : List FdOp) → closed fd (xs ++ ys) ≡ closed fd xs + closed fd ys
closed-append fd [] ys = omega arith
closed-append fd (opens x ∷ xs) ys = omega (arith, closed-append fd xs ys)
closed-append fd (closes x ∷ xs) ys = omega (arith, closed-append fd xs ys)

-- For every descriptor, on every path of `spawn_` on which no exception comes from the begin of a
-- first read: the times it is opened, with the streams that owned it before, are as many as the times
-- it is closed, with the streams that own it afterwards.
pub spawn_balanced :
    (a : SpawnAnswers) (p : Process) (fd : ℕ)
    → a.stdout_reads ≡ true
    → a.stderr_reads ≡ true
    → opened fd (spawn a p).ops + owned fd p
      ≡ closed fd (spawn a p).ops + owned fd (spawn a p).process
unfolding spawn
spawn_balanced a p fd out err = ground arith

-- No path of `spawn_` leaks a descriptor, exceptions and failing calls included: each that was opened,
-- or that a stream owned, is closed or owned by a stream afterwards.
pub spawn-kept :
    (a : SpawnAnswers) (p : Process) (fd : ℕ)
    → opened fd (spawn a p).ops + owned fd p
      ≤ closed fd (spawn a p).ops + owned fd (spawn a p).process
unfolding spawn
spawn-kept a p fd = ground arith
