-- ===== src/Manager/Reaping.antt =====
-- process_manager.cpp, `handle_sigchld_`: who is told of a child's exit.
use supervisorcpp.Prelude.{
  ℕ, ◌+◌, ◌-◌, true, [], ◌∷◌, some, ℤ, pos, minus_one, ltb_ℤ, eq_ℤ, if◌then◌else◌, Bytes, ◌≡◌, ◌⊎◌,
  arith,
}
use supervisorcpp.Process.Types.{Process}
use supervisorcpp.Process.Life.{WaitStatus, on_exit}
use supervisorcpp.Manager.Table.{Table, find}
use supervisorcpp.Manager.Loop.{notify}

-- How many processes track the child `pid`.
unfoldable pub trackers : ℤ → Table → ℕ
trackers pid [] = 0
trackers pid ((k, p) ∷ r) = (if eq_ℤ p.pid pid then 1 else 0) + trackers pid r

some-injective_lem : (p q : Process) → some q ≡ some p → q ≡ p
some-injective_lem p q e = cc

on_exit-pid : (now : ℕ) (status : WaitStatus) (p : Process) → (on_exit now status p).pid ≡ minus_one
unfolding on_exit
on_exit-pid now status p = ground arith

-- The exit of a child, of a positive id, is told to one of the processes that track it, if any
-- does; the other children are tracked as before.
pub notify-trackers :
    (now : ℕ) (pid other : ℤ) (status : WaitStatus) (t : Table)
    → ltb_ℤ (pos 0) pid ≡ true
    → ltb_ℤ (pos 0) other ≡ true
    → trackers other (notify now pid status t)
      ≡ (if eq_ℤ other pid then trackers other t - 1 else trackers other t)
unfolding trackers notify
notify-trackers now pid other status [] h k = ground arith
notify-trackers now pid other status ((i, p) ∷ r) h k =
    ground (arith, on_exit-pid now status p, notify-trackers now pid other status r h k)

-- Every process is as it was, or it tracked this child and has been told.
pub notify-find :
    (now : ℕ) (pid : ℤ) (status : WaitStatus) (t : Table) (name : Bytes) (p : Process)
    → find name t ≡ some p
    → (find name (notify now pid status t) ≡ some p)
      ⊎ ((p.pid ≡ pid) × (find name (notify now pid status t) ≡ some (on_exit now status p)))
unfolding notify find
notify-find now pid status [] name p e = cc
notify-find now pid status ((i, q) ∷ r) name p e =
    ground (arith, notify-find now pid status r name p, some-injective_lem p q)
