-- ===== src/Manager/Table.antt =====
-- process_manager.h: the state of `ProcessManager`. `process_map_` is a `std::map`, an association
-- list in the order of its keys. `sent` records the signals that were sent, oldest first, and
-- `asked` counts the questions put to the operating system, so that each has its own answer.
use supervisorcpp.Prelude.{
  ℕ, suc, ◌+◌, Bool, true, false, ◌&&◌, ◌||◌, List, [], ◌∷◌, ◌++◌, Option, none, some, ℤ, ltb, ◌==◌,
  if◌then◌else◌, Bytes, bytes_eq, ◌≡◌, length,
}
use supervisorcpp.Process.Types.{Process}
use supervisorcpp.Process.Life.{Sent, WaitStatus}
use supervisorcpp.Process.Spawn.{SpawnAnswers}

abbrev pub Table : Type 0
Table = List (Bytes × Process)

pub record Manager : Type 0 where
  pub process_map : Table
  pub sent : List Sent
  pub asked : ℕ

-- One turn of a waiting loop: children that `waitpid` reports, or the event loop for 10 ms, in
-- which the update timer may fire.
pub data Turn : Type 0 where
  reaps : List (ℤ × WaitStatus) → Turn
  ticks idles : Turn

-- The operating system: the answer to the n-th question.
pub record Os : Type 0 where
  pub now : ℕ → ℕ
  pub spawns : ℕ → SpawnAnswers
  pub kill_ok : ℕ → Bool
  pub wide_shift : ℕ → ℤ
  -- The turns of the n-th wait, with the time at which each begins.
  pub turns : ℕ → List (ℕ × Turn)

-- `std::less<std::string>`.
unfoldable pub bytes_lt : Bytes → Bytes → Bool
bytes_lt [] [] = false
bytes_lt [] (y ∷ ys) = true
bytes_lt (x ∷ xs) [] = false
bytes_lt (x ∷ xs) (y ∷ ys) = ltb x y || (x == y && bytes_lt xs ys)

-- `process_map_.find`.
unfoldable pub find : Bytes → Table → Option Process
find name [] = none
find name ((k, p) ∷ r) = if bytes_eq k name then some p else find name r

-- `process_map_[name] = p`, which keeps the order of the keys.
unfoldable pub set : Bytes → Process → Table → Table
set name p [] = (name, p) ∷ []
set name p ((k, q) ∷ r) =
    if bytes_eq k name
    then (name, p) ∷ r
    else if bytes_lt name k
    then (name, p) ∷ (k, q) ∷ r
    else (k, q) ∷ set name p r

-- A change of the object that `process_map_[name]` points to; the map stays as it is.
unfoldable pub replace : Bytes → Process → Table → Table
replace name p [] = []
replace name p ((k, q) ∷ r) = if bytes_eq k name then (k, p) ∷ r else (k, q) ∷ replace name p r

unfoldable pub erase : Bytes → Table → Table
erase name [] = []
erase name ((k, q) ∷ r) = if bytes_eq k name then r else (k, q) ∷ erase name r

-- A range-for over the map: each process in turn, with its own number of question.
unfoldable pub sweep : (ℕ → Process → Process × List Sent) → ℕ → Table → Table × List Sent
sweep f n [] = ([], [])
sweep f n ((k, p) ∷ r) =
    let (p', s) = f n p in let (r', s') = sweep f (suc n) r in ((k, p') ∷ r', s ++ s')

abbrev pub sweep_all : (ℕ → Process → Process × List Sent) → Manager → Manager
sweep_all f m =
    let (t, s) = sweep f m.asked m.process_map in
    record { process_map = t; sent = m.sent ++ s; asked = m.asked + length m.process_map }

abbrev pub keys : Table → List Bytes
keys [] = []
keys ((k, _) ∷ r) = k ∷ keys r

-- Every key comes behind `name`.
abbrev pub Below : Bytes → Table → Type 0
Below name [] = Unit
Below name ((k, _) ∷ r) = (bytes_lt name k ≡ true) × Below name r

-- The keys ascend, as in every `std::map`.
abbrev pub IsMap : Table → Type 0
IsMap [] = Unit
IsMap ((k, _) ∷ r) = Below k r × IsMap r
