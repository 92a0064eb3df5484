-- ===== src/Manager/Lookup.antt =====
-- process_manager.cpp: the laws of the map.
use supervisorcpp.Prelude.{
  true, false, [], ◌∷◌, Option, none, some, if◌then◌else◌, Bytes, bytes_eq, bytes_eq_iff,
  bytes_eq_refl, ◌≡◌, refl, arith,
}
use supervisorcpp.Process.Types.{Process}
use supervisorcpp.Manager.Table.{Table, bytes_lt, find, set, replace, erase, Below, IsMap}

bytes_lt_irrefl : (a : Bytes) → bytes_lt a a ≡ false
unfolding bytes_lt
bytes_lt_irrefl [] = refl
bytes_lt_irrefl (x ∷ a) = ground (arith, bytes_lt_irrefl a)

bytes_lt_trans : (a b c : Bytes) → bytes_lt a b ≡ true → bytes_lt b c ≡ true → bytes_lt a c ≡ true
unfolding bytes_lt
bytes_lt_trans [] [] c h k = cc
bytes_lt_trans [] (y ∷ b) [] h k = cc
bytes_lt_trans [] (y ∷ b) (z ∷ c) h k = refl
bytes_lt_trans (x ∷ a) [] c h k = cc
bytes_lt_trans (x ∷ a) (y ∷ b) [] h k = cc
bytes_lt_trans (x ∷ a) (y ∷ b) (z ∷ c) h k = ground (arith, bytes_lt_trans a b c)

bytes_lt_total : (a b : Bytes) → bytes_eq a b ≡ false → bytes_lt b a ≡ false → bytes_lt a b ≡ true
unfolding bytes_lt bytes_eq
bytes_lt_total [] [] h k = cc
bytes_lt_total [] (y ∷ b) h k = refl
bytes_lt_total (x ∷ a) [] h k = cc
bytes_lt_total (x ∷ a) (y ∷ b) h k = ground (arith, bytes_lt_total a b)

pub Below-find : (k : Bytes) (t : Table) → Below k t → find k t ≡ none
unfolding find
Below-find k [] h = refl
Below-find k ((i, q) ∷ r) h =
    ground (arith, bytes_eq_iff i k, bytes_lt_irrefl k, Below-find k r h.1)

Below-trans : (k i : Bytes) (t : Table) → bytes_lt k i ≡ true → Below i t → Below k t
Below-trans k i [] e h = tt
Below-trans k i ((j, q) ∷ r) e h = (bytes_lt_trans k i j e h.0, Below-trans k i r e h.1)

Below-set :
    (i k : Bytes) (p : Process) (t : Table) → bytes_lt i k ≡ true → Below i t → Below i (set k p t)
unfolding set
Below-set i k p [] e h = (e, tt)
Below-set i k p ((j, q) ∷ r) e h = ground (arith, Below-set i k p r e h.1, bytes_eq_iff j k)

Below-erase : (i k : Bytes) (t : Table) → Below i t → Below i (erase k t)
unfolding erase
Below-erase i k [] h = tt
Below-erase i k ((j, q) ∷ r) h = ground (arith, Below-erase i k r h.1)

pub set-IsMap : (k : Bytes) (p : Process) (t : Table) → IsMap t → IsMap (set k p t)
unfolding set
set-IsMap k p [] h = (tt, tt)
set-IsMap k p ((i, q) ∷ r) h = ground (
  arith,
  bytes_eq_iff i k,
  Below-trans k i r,
  bytes_lt_total i k,
  Below-set i k p r,
  set-IsMap k p r h.1,
)

pub erase-IsMap : (k : Bytes) (t : Table) → IsMap t → IsMap (erase k t)
unfolding erase
erase-IsMap k [] h = tt
erase-IsMap k ((i, q) ∷ r) h = ground (arith, erase-IsMap k r h.1, Below-erase i k r h.0)

pub find-set :
    (k j : Bytes) (p : Process) (t : Table)
    → find j (set k p t) ≡ (if bytes_eq k j then some p else find j t)
unfolding find set
find-set k j p [] = refl
find-set k j p ((i, q) ∷ r) =
    ground (arith, bytes_eq_iff k j, bytes_eq_iff i k, bytes_eq_iff i j, find-set k j p r)

-- `replace` writes through the pointer that `find` returns.
abbrev pub overwrite : Option Process → Process → Option Process
overwrite none p = none
overwrite (some _) p = some p

pub find-replace :
    (k j : Bytes) (p : Process) (t : Table)
    → find j (replace k p t) ≡ (if bytes_eq k j then overwrite (find j t) p else find j t)
unfolding find replace
find-replace k j p [] = ground arith
find-replace k j p ((i, q) ∷ r) =
    ground (arith, bytes_eq_iff k j, bytes_eq_iff i k, bytes_eq_iff i j, find-replace k j p r)

pub found_replaced :
    (name : Bytes) (p q : Process) (t : Table)
    → find name t ≡ some p
    → find name (replace name q t) ≡ some q
found_replaced name p q t e = rw (find-replace name name q t, bytes_eq_refl name, e)

pub find-erase :
    (k j : Bytes) (t : Table)
    → IsMap t
    → find j (erase k t) ≡ (if bytes_eq k j then none else find j t)
unfolding find erase
find-erase k j [] h = ground arith
find-erase k j ((i, q) ∷ r) h = ground (
  arith,
  bytes_eq_iff k j,
  bytes_eq_iff i k,
  bytes_eq_iff i j,
  find-erase k j r h.1,
  Below-find i r h.0,
)
