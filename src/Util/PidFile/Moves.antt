-- ===== src/Util/PidFile/Moves.antt =====
-- util/pidfile.h: moving a `PidFileGuard`. A guard that was moved from has no file, and its destructor
-- does nothing. The guards are of one path.
use supervisorcpp.Prelude.{ℕ, Option, none, some, ◌≡◌, refl}
use supervisorcpp.Util.PidFile.{Files, close_guard, destroy_guard}

-- `fd_`; a guard that was moved from has none.
pub record PidFileGuard : Type 0 where
  pub fd : Option ℕ

abbrev pub moved_from : PidFileGuard
moved_from = record { fd = none }

-- The destructor.
unfoldable pub drop_guard : PidFileGuard → Files → Files
unfolding destroy_guard
drop_guard g f = elim g.fd [ none ↦ f | some i ↦ destroy_guard i f ]

-- The move constructor: the new guard and the other.
unfoldable pub move_guard : PidFileGuard → PidFileGuard × PidFileGuard
move_guard other = (record { fd = other.fd }, moved_from)

abbrev close_fd : Option ℕ → Files → Files
close_fd none f = f
close_fd (some i) f = close_guard i f

-- The assignment of another guard: the files, this guard and the other.
unfoldable pub assign_guard :
    PidFileGuard → PidFileGuard → Files → Files × (PidFileGuard × PidFileGuard)
unfolding close_guard
assign_guard this other f = (close_fd this.fd f, (record { fd = other.fd }, moved_from))

-- A guard that is moved, by construction or into one that was moved from, releases its file once,
-- whichever of the two is destroyed first.
drop_guard-moved :
    (g : PidFileGuard) (f : Files)
    → let (new, old) = move_guard g in
      (drop_guard new (drop_guard old f) ≡ drop_guard g f)
      × ((drop_guard old (drop_guard new f) ≡ drop_guard g f)
          × (let (f', (this, other)) = assign_guard moved_from g f in
              drop_guard this (drop_guard other f') ≡ drop_guard g f))
unfolding drop_guard move_guard assign_guard
drop_guard-moved g f = (refl, (refl, refl))
