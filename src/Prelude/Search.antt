-- ===== src/Prelude/Search.antt =====
-- Searching in byte strings: `starts_with` and `find` of `std::string`.
use Prim.Native.Nat.{ℕ, suc, ◌+◌, ◌-◌, ◌≤◌, ◌<◌}
use mathlib.Core.Path.{◌≡◌, refl, sym, ap, ◌∙◌}
use mathlib.Core.Logic.{inl, inr}
use mathlib.Core.Bool.{Bool, true, false, not, ◌&&◌, ◌||◌}
use mathlib.Core.Option.{Option, none, some}
use mathlib.Core.List.{[], ◌∷◌, ◌++◌}
use native.Mathlib.Omega.{arith}
use supervisorcpp.Prelude.Tests.{◌==◌, if◌then◌else◌, Option-cases}
use supervisorcpp.Prelude.Lists.{length}
use supervisorcpp.Prelude.Text.{Bytes}

-- Whether `s` begins with `p`.
unfoldable pub begins : Bytes → Bytes → Bool
begins [] s = true
begins (x ∷ p) [] = false
begins (x ∷ p) (c ∷ s) = x == c && begins p s

abbrev pub shift_by : ℕ → Option ℕ → Option ℕ
shift_by n none = none
shift_by n (some i) = some (n + i)

-- `s.find(p)`, `none` for `npos`.
unfoldable pub find_from : Bytes → Bytes → Option ℕ
unfolding begins
find_from p [] = if begins p [] then some 0 else none
find_from p (c ∷ s) =
    let rest = find_from p s in
    if begins p (c ∷ s) then some 0 else elim rest [ none ↦ none | some i ↦ some (suc i) ]

begins-length : (p s : Bytes) → begins p s ≡ true → length p ≤ length s
unfolding begins
begins-length [] s h = omega arith
begins-length (x ∷ p) [] h = absurd (cc h)
begins-length (x ∷ p) (c ∷ s) h = ground (arith, begins-length p s)

pub find_from-bound : (p s : Bytes) (i : ℕ) → find_from p s ≡ some i → i + length p ≤ length s
unfolding find_from
find_from-bound p [] i h = ground (arith, begins-length p [])
find_from-bound p (c ∷ s) i h =
    ground
      (arith, begins-length p (c ∷ s), find_from-bound p s (i - 1), Option-cases (find_from p s))

begins-append_long : (p s r : Bytes) → length p ≤ length s → begins p (s ++ r) ≡ begins p s
unfolding begins
begins-append_long [] s r h = refl
begins-append_long (x ∷ p) [] r h = absurd (omega arith)
begins-append_long (x ∷ p) (c ∷ s) r h = rw (begins-append_long p s r (omega arith))

begins-append : (p r : Bytes) → begins p (p ++ r) ≡ true
unfolding begins
begins-append [] r = refl
begins-append (x ∷ p) r = ground (arith, begins-append p r)

-- What is found is found again when more text follows.
find_from-append : (p s r : Bytes) (i : ℕ) → find_from p s ≡ some i → find_from p (s ++ r) ≡ some i
unfolding find_from
find_from-append [] [] [] i h = h
find_from-append [] [] (c ∷ r) i h = h
find_from-append (x ∷ p) [] r i h = absurd (cc h)
find_from-append p (c ∷ s) r i h = ground (
  arith,
  begins-length p (c ∷ s),
  begins-append_long p (c ∷ s) r,
  find_from-bound p s (i - 1),
  find_from-append p s r (i - 1),
  Option-cases (find_from p s),
)

-- A text that ends before the first occurrence does has none.
pub find_from-early :
    (p s r : Bytes) (i : ℕ)
    → find_from p (s ++ r) ≡ some i
    → length s < i + length p
    → find_from p s ≡ none
find_from-early p s r i h early = elim (Option-cases (find_from p s)) [
  | inl e ↦ e
  | inr (j, e) ↦
      absurd (ground (arith, find_from-bound p s j e, sym h ∙ find_from-append p s r j e))
]

pub find_from-absent : (p s r : Bytes) → find_from p (s ++ r) ≡ none → find_from p s ≡ none
find_from-absent p s r h = elim (Option-cases (find_from p s)) [
  | inl e ↦ e
  | inr (j, e) ↦ absurd (cc (sym h ∙ find_from-append p s r j e))
]

-- The two differ within their common length, so no text behind `s` makes it begin with `p`.
unfoldable pub differs : Bytes → Bytes → Bool
differs (x ∷ p) (c ∷ s) = not (x == c) || differs p s
differs _ _ = false

-- No occurrence of `p` begins in `s`, whatever text follows.
unfoldable pub apart : Bytes → Bytes → Bool
unfolding differs
apart p [] = true
apart p (c ∷ s) = differs p (c ∷ s) && apart p s

differs-begins : (p s r : Bytes) → differs p s ≡ true → begins p (s ++ r) ≡ false
unfolding differs begins
differs-begins [] s r h = absurd (cc h)
differs-begins (x ∷ p) [] r h = absurd (cc h)
differs-begins (x ∷ p) (c ∷ s) r h = ground (arith, differs-begins p s r)

pub apart-find_from :
    (p s r : Bytes) → apart p s ≡ true → find_from p (s ++ r) ≡ shift_by (length s) (find_from p r)
unfolding apart find_from
apart-find_from p [] r h = ground (arith, Option-cases (find_from p r))
apart-find_from p (c ∷ s) r h =
    ground (arith, differs-begins p (c ∷ s) r, apart-find_from p s r, Option-cases (find_from p r))

differs-append : (p s r : Bytes) → differs p s ≡ true → differs p (s ++ r) ≡ true
unfolding differs
differs-append [] s r h = absurd (cc h)
differs-append (x ∷ p) [] r h = absurd (cc h)
differs-append (x ∷ p) (c ∷ s) r h = ground (arith, differs-append p s r)

pub apart-append : (p s r : Bytes) → apart p s ≡ true → apart p r ≡ true → apart p (s ++ r) ≡ true
unfolding apart
apart-append p [] r h k = k
apart-append p (c ∷ s) r h k = ground (arith, differs-append p (c ∷ s) r, apart-append p s r)

-- An occurrence right behind such a text is the first.
pub find_from-apart :
    (p s r : Bytes) → apart p s ≡ true → find_from p (s ++ (p ++ r)) ≡ some (length s)
find_from-apart p s r h =
    apart-find_from p s (p ++ r) h
    ∙ ap (shift_by (length s)) (found (p ++ r) (begins-append p r))
    ∙ ap some (omega arith)
  where
    found : (t : Bytes) → begins p t ≡ true → find_from p t ≡ some 0
    found [] b = unfold find_from in rw b
    found (c ∷ t) b = unfold find_from in rw b
