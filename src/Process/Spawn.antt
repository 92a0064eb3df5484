-- ===== src/Process/Spawn.antt =====
-- process.cpp, `spawn_`, the parent's part: pipes, fork, and who owns which descriptor.
-- Every `pipe2` and `close` of the parent is recorded, in order. `SpawnAnswers` is what the
-- operating system answers. The child's part ends in `exec` or `_exit` and is Process/Child.
use supervisorcpp.Prelude.{
  ℕ, ◌+◌, Bool, true, false, not, ◌&&◌, List, [], ◌∷◌, ◌++◌, Option, none, some, ℤ, pos, minus_one,
  ltb_ℤ, ◌==◌, if◌then◌else◌, Bytes, codes,
}
use supervisorcpp.Process.Types.{Process}

-- A pipe's read end and write end.
pub record Pipe : Type 0 where
  pub read_end : ℕ
  pub write_end : ℕ

pub record SpawnAnswers : Type 0 where
  -- `pipe2`; `none` where it fails.
  pub stdout_pipe : Option Pipe
  pub stderr_pipe : Option Pipe
  -- `fork`, in the parent.
  pub child : ℤ
  -- The constructor of the stream descriptor does not throw.
  pub stdout_async : Bool
  pub stderr_async : Bool
  -- The first read that is begun behind it does not throw.
  pub stdout_reads : Bool
  pub stderr_reads : Bool
  -- `strerror(errno)` of the call that fails.
  pub error_text : Bytes

pub data FdOp : Type 0 where
  opens closes : ℕ → FdOp

pub record Spawned : Type 0 where
  pub process : Process
  pub child : ℤ
  pub ops : List FdOp

abbrev is_some : {A : Type 0} → Option A → Bool
is_some none = false
is_some (some _) = true

open_pipe : Option Pipe → List FdOp
open_pipe none = []
open_pipe (some p) = opens p.read_end ∷ opens p.write_end ∷ []

close_pipe : Option Pipe → List FdOp
close_pipe none = []
close_pipe (some p) = closes p.read_end ∷ closes p.write_end ∷ []

close_write_end : Option Pipe → List FdOp
close_write_end none = []
close_write_end (some p) = closes p.write_end ∷ []

-- `stdout_stream_ = std::make_unique<...>` destroys the stream that was there.
close_stream : Option ℕ → List FdOp
close_stream none = []
close_stream (some fd) = closes fd ∷ []

fail_spawn : Process → Bytes → List FdOp → Spawned
fail_spawn p message ops = record {
  process = record p { spawn_error = message };
  child = minus_one;
  ops = ops;
}

-- The parent's read end: handed to a stream, which may fail, or closed for want of a writer. The
-- `catch` closes the descriptor also where the exception comes from the begin of the read, behind
-- the constructor, and the stream owns it by then. Returns the stream afterwards.
attach : Option Pipe → Bool → Bool → Bool → Option ℕ → Option ℕ × List FdOp
attach none has_writer async reads old = (old, [])
attach (some p) true true true old = (some p.read_end, close_stream old)
attach (some p) true true false old = (some p.read_end, close_stream old ++ closes p.read_end ∷ [])
attach (some p) true false reads old = (old, closes p.read_end ∷ [])
attach (some p) false async reads old = (old, closes p.read_end ∷ [])

-- Behind `fork`, in the parent.
unfoldable pub parent_side :
    SpawnAnswers → Process → Option Pipe → Option Pipe → List FdOp → Spawned
unfolding attach close_write_end close_stream
parent_side a p out err ops =
    let (out_stream, out_ops) =
      attach out (is_some p.stdout_log_writer) a.stdout_async a.stdout_reads p.stdout_stream in
    let (err_stream, err_ops) =
      attach err (is_some p.stderr_log_writer) a.stderr_async a.stderr_reads p.stderr_stream in
    record {
      process = record p { stdout_stream = out_stream; stderr_stream = err_stream };
      child = a.child;
      ops = ops ++ (close_write_end out ++ (close_write_end err ++ (out_ops ++ err_ops)));
    }

unfoldable pub fork_child : SpawnAnswers → Process → Option Pipe → Option Pipe → Spawned
unfolding open_pipe close_pipe parent_side fail_spawn
fork_child a p out err =
    let opened = open_pipe out ++ open_pipe err in
    if ltb_ℤ a.child (pos 0)
    then fail_spawn p (codes "Fork failed: " ++ a.error_text)
        (opened ++ (close_pipe out ++ close_pipe err))
    else parent_side a p out err opened

-- The second pipe, if one is wanted.
unfoldable pub pipe_stderr : SpawnAnswers → Process → Option Pipe → Spawned
unfolding fork_child
pipe_stderr a p out =
    if not p.config.redirect_stderr && is_some p.config.stderr_log.file
    then elim a.stderr_pipe [
      | none ↦
          fail_spawn p (codes "Failed to create stderr pipe: " ++ a.error_text)
            (open_pipe out ++ close_pipe out)
      | some err ↦ fork_child a p out (some err)
    ]
    else fork_child a p out none

unfoldable pub spawn : SpawnAnswers → Process → Spawned
unfolding pipe_stderr
spawn a p₀ =
    let p = record p₀ { spawn_error = [] } in
    if is_some p.config.stdout_log.file
    then elim a.stdout_pipe [
      | none ↦ fail_spawn p (codes "Failed to create stdout pipe: " ++ a.error_text) []
      | some out ↦ pipe_stderr a p (some out)
    ]
    else pipe_stderr a p none

-- How often `fd` is opened and closed.
abbrev pub opened : ℕ → List FdOp → ℕ
opened fd [] = 0
opened fd (opens x ∷ r) = (if x == fd then 1 else 0) + opened fd r
opened fd (closes x ∷ r) = opened fd r

abbrev pub closed : ℕ → List FdOp → ℕ
closed fd [] = 0
closed fd (opens x ∷ r) = closed fd r
closed fd (closes x ∷ r) = (if x == fd then 1 else 0) + closed fd r

-- How many of the process's streams own `fd`.
abbrev owns : ℕ → Option ℕ → ℕ
owns fd none = 0
owns fd (some x) = if x == fd then 1 else 0

abbrev pub owned : ℕ → Process → ℕ
owned fd p = owns fd p.stdout_stream + owns fd p.stderr_stream
