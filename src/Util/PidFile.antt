-- ===== src/Util/PidFile.antt =====
-- util/pidfile.h, `PidFileGuard`: the pid file and its lock, over the files that several instances
-- share. A guard holds the file that it opened, by number; the path may come to name another.
pub mod Moves
pub mod Released
use supervisorcpp.Prelude.{
  ℕ, suc, Bool, true, false, not, ◌||◌, List, [], ◌∷◌, Option, none, some, ◌==◌, if◌then◌else◌,
  ==_refl, Bytes, ◌-◌, ◌≡◌, ◌⊎◌, refl, sym, ap, subst, ◌∙◌, inl, inr, Bool-cases, if-either, arith,
}

-- What stands at the path, the number of the next file, the locked files, and what the files hold.
pub record Files : Type 0 where
  pub at_path : Option ℕ
  pub next : ℕ
  pub locked : List ℕ
  pub contents : ℕ → Bytes

unfoldable pub is_locked : ℕ → List ℕ → Bool
is_locked i [] = false
is_locked i (j ∷ r) = (i == j) || is_locked i r

-- Closing the file releases its lock.
unfoldable pub unlock : ℕ → List ℕ → List ℕ
unlock i [] = []
unlock i (j ∷ r) = let rest = unlock i r in if i == j then rest else j ∷ rest

abbrev pub fill : ℕ → Bytes → (ℕ → Bytes) → ℕ → Bytes
fill i text contents j = if i == j then text else contents j

-- `open` with `O_CREAT | O_TRUNC`, by what stands at the path: the file that is opened, and is empty
-- now.
unfoldable pub open_at : Option ℕ → Files → Files × ℕ
open_at none f = (
  record f { at_path = some f.next; next = suc f.next; contents = fill f.next [] f.contents },
  f.next,
)
open_at (some i) f = (record f { contents = fill i [] f.contents }, i)

abbrev pub open_file : Files → Files × ℕ
open_file f = open_at f.at_path f

-- The lock, and the writing of the text of the process id; where either fails, the file is closed.
unfoldable pub lock_file : Bool → Bytes → Files → ℕ → Files × Option ℕ
unfolding is_locked
lock_file writes pid_str f i =
    if is_locked i f.locked
    then (f, none)
    else if not writes
    then (f, none)
    else (record f { locked = i ∷ f.locked; contents = fill i pid_str f.contents }, some i)

-- The constructor behind the check of the path: whether `open` and `write` succeed, and the text. It
-- gives the file of the guard, or none where it throws.
unfoldable pub create_guard : Bool → Bool → Bytes → Files → Files × Option ℕ
unfolding open_at lock_file
create_guard opens writes pid_str f =
    let (f', i) = open_file f in if not opens then (f, none) else lock_file writes pid_str f' i

-- The destructor: the file is closed, and then what stands at the path is removed.
unfoldable pub close_guard : ℕ → Files → Files
unfolding unlock
close_guard i f = record f { locked = unlock i f.locked }

unfoldable pub remove_file : Files → Files
remove_file f = record f { at_path = none }

unfoldable pub destroy_guard : ℕ → Files → Files
unfolding close_guard remove_file
destroy_guard i f = remove_file (close_guard i f)

-- The files, the guards that are alive, and how many destructors have closed their file and not yet
-- removed what stands at the path.
pub record Instances : Type 0 where
  pub files : Files
  pub alive : List ℕ
  pub leaving : ℕ

-- An instance starts, the destructor of a guard closes its file, or one that did removes the path.
pub data InstanceEvent : Type 0 where
  begins_with : Bool → Bool → Bytes → InstanceEvent
  closes : ℕ → InstanceEvent
  removes : InstanceEvent

abbrev pub with_guard : Option ℕ → List ℕ → List ℕ
with_guard none alive = alive
with_guard (some i) alive = i ∷ alive

unfoldable pub instance_step : InstanceEvent → Instances → Instances
unfolding create_guard close_guard remove_file is_locked unlock
instance_step (begins_with opens writes pid_str) w =
    let (f, guard) = create_guard opens writes pid_str w.files in
    record w { files = f; alive = with_guard guard w.alive }
instance_step (closes i) w =
    if is_locked i w.alive
    then record { files = close_guard i w.files; alive = unlock i w.alive; leaving = suc w.leaving }
    else w
instance_step removes w =
    if w.leaving == 0 then w else record w { files = remove_file w.files; leaving = w.leaving - 1 }

unfoldable pub instance_steps : List InstanceEvent → Instances → Instances
unfolding instance_step
instance_steps [] w = w
instance_steps (e ∷ r) w = instance_steps r (instance_step e w)

-- No instance starts between the two steps of a destructor.
abbrev pub is_between : InstanceEvent → Instances → Bool
is_between (begins_with opens writes pid_str) w = not (w.leaving == 0)
is_between _ w = false

unfoldable pub NoneBetween : List InstanceEvent → Instances → Type 0
NoneBetween [] w = Unit
NoneBetween (e ∷ r) w = (is_between e w ≡ false) × NoneBetween r (instance_step e w)

-- No guard, or one, which holds the lock of the file at the path.
abbrev pub IsFree : Instances → Type 0
IsFree w = (w.alive ≡ []) × (w.files.locked ≡ [])

abbrev pub IsHeld : Instances → Type 0
IsHeld w =
    (i : ℕ) × (w.alive ≡ i ∷ [])
    × (w.files.locked ≡ i ∷ [])
    × (w.files.at_path ≡ some i)
    × (w.leaving ≡ 0)

abbrev pub IsExclusive : Instances → Type 0
IsExclusive w = IsFree w ⊎ IsHeld w

-- The path names the file that was opened, and no lock changes.
open_at-at_path :
    (p : Option ℕ) (f : Files)
    → f.at_path ≡ p
    → ((open_at p f).0.at_path ≡ some (open_at p f).1) × ((open_at p f).0.locked ≡ f.locked)
unfolding open_at
open_at-at_path none f e = (refl, refl)
open_at-at_path (some i) f e = (e, refl)

abbrev of_guard : Instances → Files × Option ℕ → Instances
of_guard w x = record w { files = x.0; alive = with_guard x.1 w.alive }

-- An open file where nobody has a lock.
lock_file-free :
    (writes : Bool) (text : Bytes) (f : Files) (i : ℕ) (w : Instances)
    → w.leaving ≡ 0
    → w.alive ≡ []
    → f.locked ≡ []
    → f.at_path ≡ some i
    → IsExclusive (of_guard w (lock_file writes text f i))
unfolding lock_file is_locked
lock_file-free true text f i w none_leaves a l p =
    let taken : lock_file true text f i
        ≡ (record f { locked = i ∷ f.locked; contents = fill i text f.contents }, some i) =
      rw (ap (is_locked i) l) refl in
    subst (λ x. IsExclusive (of_guard w x)) (sym taken)
      (inr (i, ap (◌∷◌ i) a, ap (◌∷◌ i) l, p, none_leaves))
lock_file-free false text f i w none_leaves a l p =
    let left : lock_file false text f i ≡ (f, none) = rw (ap (is_locked i) l) refl in
    subst (λ x. IsExclusive (of_guard w x)) (sym left) (inl (a, l))

-- An open file that a guard has locked.
lock_file-held :
    (writes : Bool) (text : Bytes) (f : Files) (i : ℕ)
    → f.locked ≡ i ∷ []
    → lock_file writes text f i ≡ (f, none)
unfolding lock_file is_locked
lock_file-held writes text f i l = rw (ap (is_locked i) l) (rw (==_refl i) refl)

begin_free :
    (opens writes : Bool) (text : Bytes) (w : Instances)
    → w.leaving ≡ 0
    → IsFree w
    → IsExclusive (instance_step (begins_with opens writes text) w)
unfolding instance_step create_guard
begin_free false writes text w z (a, l) = inl (a, l)
begin_free true writes text w z (a, l) =
    let (p, k) = open_at-at_path w.files.at_path w.files refl in
    lock_file-free writes text (open_file w.files).0 (open_file w.files).1 w z a (k ∙ l) p

begin_held :
    (opens writes : Bool) (text : Bytes) (w : Instances)
    → IsHeld w
    → IsExclusive (instance_step (begins_with opens writes text) w)
unfolding instance_step create_guard open_at
begin_held false writes text w h = inr h
begin_held true writes text w (i, a, l, p, z) =
    subst (λ x. IsExclusive (of_guard w (lock_file writes text x.0 x.1)))
      (sym (ap (λ q. open_at q w.files) p))
      (subst (λ x. IsExclusive (of_guard w x)) (sym (lock_file-held writes text _ i l))
        (inr (i, a, l, p, z)))

close_held : (i : ℕ) (w : Instances) → IsHeld w → IsExclusive (instance_step (closes i) w)
unfolding instance_step close_guard is_locked unlock
close_held i w (j, a, l, p, z) = elim (Bool-cases (i == j)) [
  | inl same ↦
      let known : is_locked i w.alive ≡ true = ap (is_locked i) a ∙ rw same refl in
      let emptied : unlock i (j ∷ []) ≡ [] = rw same refl in
      rw known (inl (ap (unlock i) a ∙ emptied, ap (unlock i) l ∙ emptied))
  | inr other ↦
      let unknown : is_locked i w.alive ≡ false = ap (is_locked i) a ∙ rw other refl in
      rw unknown (inr (j, a, l, p, z))
]

step-IsExclusive :
    (e : InstanceEvent) (w : Instances)
    → is_between e w ≡ false
    → IsExclusive w
    → IsExclusive (instance_step e w)
unfolding instance_step remove_file is_locked
step-IsExclusive (begins_with opens writes text) w b (inl h) =
    begin_free opens writes text w (ground (arith, b)) h
step-IsExclusive (begins_with opens writes text) w b (inr h) = begin_held opens writes text w h
step-IsExclusive (closes i) w b (inl (a, l)) = rw (ap (is_locked i) a) (inl (a, l))
step-IsExclusive (closes i) w b (inr h) = close_held i w h
step-IsExclusive removes w b (inl (a, l)) =
    if-either IsExclusive (w.leaving == 0) _ _ (inl (a, l)) (inl (a, l))
step-IsExclusive removes w b (inr (i, a, l, p, z)) =
    let none_leaves : (w.leaving == 0) ≡ true = ground (arith, z) in
    rw none_leaves (inr (i, a, l, p, z))

steps-IsExclusive :
    (events : List InstanceEvent) (w : Instances)
    → NoneBetween events w
    → IsExclusive w
    → IsExclusive (instance_steps events w)
unfolding instance_steps NoneBetween
steps-IsExclusive [] w b h = h
steps-IsExclusive (e ∷ r) w (b, bs) h =
    steps-IsExclusive r (instance_step e w) bs (step-IsExclusive e w b h)

-- However instances that share a path start, with failures of opening and of writing, and end, whose
-- destructors close the file in one step and remove the path in another: as long as no instance starts
-- between these two steps of a destructor, at most one guard is alive, and it holds the lock of the file
-- that stands at the path. Without the condition two can be alive.
pub instance_steps-IsExclusive :
    (files : Files) (events : List InstanceEvent)
    → files.locked ≡ []
    → NoneBetween events (record { files = files; alive = []; leaving = 0 })
    → IsExclusive (instance_steps events (record { files = files; alive = []; leaving = 0 }))
instance_steps-IsExclusive files events l none_between =
    steps-IsExclusive events (record { files = files; alive = []; leaving = 0 }) none_between
      (inl (refl, l))
