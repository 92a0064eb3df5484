-- ===== src/Manager/Loop.antt =====
-- process_manager.cpp: `handle_sigchld_`, `on_timer_`, `reap_until_`, `has_running_processes`.
-- Within a wait the event loop runs the update timer. Requests that it may serve meanwhile are not
-- modelled.
use supervisorcpp.Prelude.{
  ℕ, ◌+◌, ◌*◌, Bool, true, false, ◌&&◌, ◌||◌, List, [], ◌∷◌, ℤ, pos, not, ltb, ltb_ℤ, eq_ℤ,
  if◌then◌else◌,
}
use supervisorcpp.Process.Types.{has_pid}
use supervisorcpp.Process.Life.{WaitStatus, on_exit, update}
use supervisorcpp.Manager.Table.{Table, Manager, Os, Turn, reaps, ticks, idles, sweep_all}

-- The inner loop of `handle_sigchld_`: the first process with this id is told, then `break`.
unfoldable pub notify : ℕ → ℤ → WaitStatus → Table → Table
notify now pid status [] = []
notify now pid status ((k, p) ∷ r) =
    if eq_ℤ p.pid pid then (k, on_exit now status p) ∷ r else (k, p) ∷ notify now pid status r

-- What `waitpid` returns, call by call: it has no more where the id is not positive, or where the
-- list ends. The flag is `reaped`.
unfoldable pub handle_sigchld : ℕ → List (ℤ × WaitStatus) → Table → Table × Bool
unfolding notify
handle_sigchld now [] t = (t, false)
handle_sigchld now ((pid, status) ∷ r) t =
    if not (ltb_ℤ (pos 0) pid)
    then (t, false)
    else ((handle_sigchld now r (notify now pid status t)).0, true)

-- `on_timer_`; the next timer is the environment's next tick.
unfoldable pub on_timer : Os → Manager → Manager
on_timer os m = sweep_all (λ n p. update os.wide_shift (os.spawns n) (os.now n) p) m

unfoldable pub has_running_processes : Table → Bool
has_running_processes [] = false
has_running_processes ((_, p) ∷ r) = has_pid p || has_running_processes r

-- One turn; `waitpid` has nothing to report in the last two.
unfoldable pub take_turn : Os → Turn → Manager → Manager
unfolding handle_sigchld on_timer
take_turn os (reaps l) m = record {
  process_map = (handle_sigchld (os.now m.asked) l m.process_map).0;
  sent = m.sent;
  asked = m.asked + 1;
}
take_turn os ticks m = on_timer os m
take_turn os idles m = m

-- The loop stops when nothing is to be waited for, at the deadline at the latest. The list holds
-- the turns up to a time past the deadline.
unfoldable pub wait_turns : Os → ℕ → (Table → Bool) → List (ℕ × Turn) → Manager → Manager
wait_turns os deadline keep_waiting [] m = m
wait_turns os deadline keep_waiting ((time, turn) ∷ r) m =
    elim (keep_waiting m.process_map && ltb time deadline) [
      | true ↦ wait_turns os deadline keep_waiting r (take_turn os turn m)
      | false ↦ m
    ]

abbrev pub second : ℕ
second = 1000000000

-- `reap_until_`, for a number of seconds.
unfoldable pub reap_until : Os → ℕ → (Table → Bool) → Manager → Manager
unfolding wait_turns
reap_until os seconds keep_waiting m =
    wait_turns os (os.now m.asked + seconds * second) keep_waiting (os.turns m.asked)
      (record m { asked = m.asked + 1 })
