-- ===== src/Tests/PidFiles.antt =====
-- Instances of the daemon that share a pid file.
use supervisorcpp.Prelude.{true, List, [], ◌∷◌, none, codes, ◌≡◌, refl}
use supervisorcpp.Util.PidFile.{
  Files, Instances, InstanceEvent, begins_with, closes, removes, IsExclusive, NoneBetween,
  instance_step, instance_steps, instance_steps-IsExclusive, create_guard, close_guard,
}

abbrev no_files : Files
no_files = record { at_path = none; next = 0; locked = []; contents = λ i. [] }

abbrev two_starts : List InstanceEvent
two_starts =
    begins_with true true (codes "10\n")
    ∷ begins_with true true (codes "20\n")
    ∷ closes 0
    ∷ removes
    ∷ begins_with true true (codes "30\n")
    ∷ []

abbrev nobody : Instances
nobody = record { files = no_files; alive = []; leaving = 0 }

two_starts-NoneBetween : NoneBetween two_starts nobody
unfolding NoneBetween instance_step create_guard close_guard
two_starts-NoneBetween = (refl, (refl, (refl, (refl, (refl, tt)))))

instance_steps-IsExclusive_example : IsExclusive (instance_steps two_starts nobody)
instance_steps-IsExclusive_example =
    instance_steps-IsExclusive no_files two_starts refl two_starts-NoneBetween

-- The second start is refused, and leaves the file of the first empty.
emptied :
    ((create_guard true true
        (codes "20\n")
        (create_guard true true (codes "10\n") no_files).0).0.contents
      0)
    ≡ []
unfolding create_guard
emptied = refl

-- A start between the two steps of a destructor: its guard holds a file that the path no longer names,
-- and another instance can start beside it.
abbrev late_start : List InstanceEvent
late_start =
    begins_with true true (codes "10\n")
    ∷ closes 0
    ∷ begins_with true true (codes "20\n")
    ∷ removes
    ∷ begins_with true true (codes "30\n")
    ∷ []

both_alive : (instance_steps late_start nobody).alive ≡ 1 ∷ 0 ∷ []
unfolding instance_steps create_guard close_guard
both_alive = refl
