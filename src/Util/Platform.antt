-- ===== src/Util/Platform.antt =====
-- util/platform.cpp: `pipe2` where the system has none. The calls of the system are arguments.
use supervisorcpp.Prelude.{ℕ, ◌%◌, Option, none, some, ◌≡◌, ap, ◌∙◌}
use Prim.Native.Nat.{bit_or}

pub record System : Type 1 where
  pub Descriptors : Type 0
  -- The ends of a new pipe, none where it fails.
  pub pipe : Descriptors → Descriptors × Option (ℕ × ℕ)
  -- `fcntl` with `F_GETFD` and `F_SETFD`.
  pub get_flags : ℕ → Descriptors → ℕ
  pub set_flags : ℕ → ℕ → Descriptors → Descriptors

module _ (sys : System) where
  open sys use {Descriptors, pipe, get_flags, set_flags}

  unfoldable pub add_flags : ℕ → ℕ → Descriptors → Descriptors
  add_flags flags fd s = set_flags fd (bit_or (get_flags fd s) flags) s

  unfoldable pub pipe2 : ℕ → Descriptors → Descriptors × Option (ℕ × ℕ)
  unfolding add_flags
  pipe2 flags s =
      let (s', ends) = pipe s in
      elim ends [
        | none ↦ (s', none)
        | some (out, in_end) ↦ (add_flags flags in_end (add_flags flags out s'), some (out, in_end))
      ]

  -- `O_CLOEXEC` of Linux; its lowest bit, which is `FD_CLOEXEC`, is not set.
  abbrev o_cloexec : ℕ
  o_cloexec = 524288

  -- Where the system keeps of the flags only `FD_CLOEXEC`, and a new descriptor has none, a descriptor
  -- does not get it from `O_CLOEXEC`.
  add_flags-o_cloexec :
      (fd : ℕ) (s : Descriptors)
      → ((v : ℕ) → get_flags fd (set_flags fd v s) ≡ v % 2)
      → get_flags fd s ≡ 0
      → get_flags fd (add_flags o_cloexec fd s) ≡ 0
  unfolding add_flags
  add_flags-o_cloexec fd s kept fresh =
      kept (bit_or (get_flags fd s) o_cloexec) ∙ ap (λ n. bit_or n o_cloexec % 2) fresh
