-- ===== src/Util/Secure/Paths.antt =====
-- util/secure.cpp: which resolved paths are accepted.
use supervisorcpp.Prelude.{
  true, List, [], ◌∷◌, ◌++◌, Option, none, some, Bytes, ◌≡◌, ◌⊎◌, refl, sym, ap, ◌∙◌, arith, inl,
  inr, Bool-cases,
}
use supervisorcpp.Util.Secure.{
  starts_with, validate_canonicalize_path, validate_path_in_allowed_dirs, Checked, valid, refused,
}

starts_with-append : (p s : Bytes) → starts_with p (p ++ s) ≡ true
unfolding starts_with
starts_with-append [] s = refl
starts_with-append (c ∷ p) s = ground (arith, starts_with-append p s)

starts_with-split : (p s : Bytes) → starts_with p s ≡ true → (r : Bytes) × (s ≡ p ++ r)
unfolding starts_with
starts_with-split [] s h = (s, refl)
starts_with-split (c ∷ p) [] h = absurd (cc h)
starts_with-split (c ∷ p) (x ∷ s) h =
    let (r, e) = starts_with-split p s (ground arith) in (r, ground (arith, e))

refused_ne_valid : {p : Bytes} → ◌≡◌ {A = Checked Bytes} refused (valid p) → ⊥
refused_ne_valid e = cc

valid_eq : (a b : Bytes) → valid a ≡ valid b → a ≡ b
valid_eq a b e = cc

-- Some directory of the list is a prefix of the path, as a string.
abbrev pub HasPrefix : List Bytes → Bytes → Type 0
HasPrefix [] path = ⊥
HasPrefix (d ∷ r) path = ((rest : Bytes) × (path ≡ d ++ rest)) ⊎ HasPrefix r path

-- A path that was accepted is the resolved one, and begins with an allowed directory.
pub validate_path-HasPrefix :
    (dirs : List Bytes) (resolved : Option Bytes) (path : Bytes)
    → validate_path_in_allowed_dirs resolved dirs ≡ valid path
    → (resolved ≡ some path) × HasPrefix dirs path
unfolding validate_path_in_allowed_dirs validate_canonicalize_path
validate_path-HasPrefix [] resolved path h = absurd (refused_ne_valid h)
validate_path-HasPrefix (d ∷ r) none path h =
    let (e, later) = validate_path-HasPrefix r none path h in (e, inr later)
validate_path-HasPrefix (d ∷ r) (some c) path h = elim (Bool-cases (starts_with d c)) [
  | inl here ↦
      let taken : validate_path_in_allowed_dirs (some c) (d ∷ r) ≡ valid c = ground arith in
      let same = valid_eq c path (sym taken ∙ h) in
      let (rest, split) = starts_with-split d c here in (ap some same, inl (rest, sym same ∙ split))
  | inr passed ↦
      let on : validate_path_in_allowed_dirs (some c) (d ∷ r)
          ≡ validate_path_in_allowed_dirs (some c) r =
        ground arith in
      let (e, later) = validate_path-HasPrefix r (some c) path (sym on ∙ h) in (e, inr later)
]

-- The prefix is compared byte by byte, so a directory also lets every path pass that goes on with
-- the name: `/var/log` lets `/var/logs` pass.
validate_path-append :
    (d rest : Bytes) (dirs : List Bytes)
    → validate_path_in_allowed_dirs (some (d ++ rest)) (d ∷ dirs) ≡ valid (d ++ rest)
unfolding validate_path_in_allowed_dirs validate_canonicalize_path
validate_path-append d rest dirs = ground (arith, starts_with-append d rest)
