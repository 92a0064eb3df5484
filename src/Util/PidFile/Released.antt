-- ===== src/Util/PidFile/Released.antt =====
-- util/pidfile.h: the locks behind a `PidFileGuard` that was created and destroyed.
use supervisorcpp.Prelude.{
  ℕ, Bool, true, false, List, [], ◌∷◌, Option, none, some, Bytes, ==_refl, ◌≡◌, refl, ◌∙◌, arith,
  inl, inr, Bool-cases,
}
use supervisorcpp.Util.PidFile.{Files, create_guard, is_locked, unlock, open_at, lock_file}

unlock-absent : (i : ℕ) (l : List ℕ) → is_locked i l ≡ false → unlock i l ≡ l
unfolding is_locked unlock
unlock-absent i [] h = refl
unlock-absent i (j ∷ l) h = ground (arith, h, unlock-absent i l)

-- The locks, once the guard is gone, where there is one.
abbrev pub released : Files × Option ℕ → List ℕ
released (f, none) = f.locked
released (f, some i) = unlock i f.locked

lock_file-released :
    (writes : Bool) (text : Bytes) (f : Files) (i : ℕ)
    → released (lock_file writes text f i) ≡ f.locked
unfolding lock_file unlock
lock_file-released true text f i = elim (Bool-cases (is_locked i f.locked)) [
  | inl taken ↦ rw taken refl
  | inr free ↦ rw free (rw (==_refl i) (unlock-absent i f.locked free))
]
lock_file-released false text f i = elim (Bool-cases (is_locked i f.locked)) [
  | inl taken ↦ rw taken refl
  | inr free ↦ rw free refl
]

open_at-locked : (p : Option ℕ) (f : Files) → (open_at p f).0.locked ≡ f.locked
unfolding open_at
open_at-locked none f = refl
open_at-locked (some i) f = refl

pub create_guard-released :
    (opens writes : Bool) (text : Bytes) (f : Files)
    → released (create_guard opens writes text f) ≡ f.locked
unfolding create_guard
create_guard-released false writes text f = refl
create_guard-released true writes text f =
    let opened = open_at f.at_path f in
    lock_file-released writes text opened.0 opened.1 ∙ open_at-locked f.at_path f
