-- ===== src/Ctl/Commands/Outcomes.antt =====
-- supervisorctl.h: how commands end.
use supervisorcpp.Prelude.{
  Bool, true, false, ◌||◌, List, [], ◌∷◌, some, if◌then◌else◌, ℤ, pos, minus_one, Bytes, codes,
  bytes_eq, bytes_eq_iff, eq_ℤ, ◌≡◌, ◌≢◌, refl, sym, inl, inr, Bool-cases, Option-cases, arith,
  subst,
}
use supervisorcpp.PropertyTree.{PropertyTree}
use supervisorcpp.Ctl.Call.{Called}
use supervisorcpp.Ctl.Commands.{
  commands, find_command, Method, status, start, stop, restart, shutdown, reload, help, exit,
  cmd_status, cmd_start, cmd_stop, cmd_restart, cmd_shutdown, cmd_reload, cmd_help, cmd_exit,
  status_all, name_required, run_command, look_up, report, execute_command,
}
use supervisorcpp.Ctl.Worlds.{World, Result, ok, error, Command, ◌>>=◌, go_on, caught, handle}

-- What a command returns, where it returns, satisfies `P`.
abbrev Holds {ℓ κ} : {A : Type ℓ} → (A → Type κ) → Result A → Type κ
Holds P (ok a) = P a
Holds P (error e) = Unit

abbrev Yields {ℓ κ} : {S : Type 0} {A : Type ℓ} → (A → Type κ) → Command S A → Type κ
Yields {S} P m = (w : World S) → Holds P (m w).1

Yields-next {ℓ κ ι} :
    {S : Type 0} {A : Type ℓ} {B : Type κ} (P : B → Type ι) (f : A → Command S B)
    → ((a : A) → Yields P (f a))
    → (w : World S) (r : Result A) → Holds P (go_on f w r).1
Yields-next P f k w (ok a) = k a w
Yields-next P f k w (error e) = tt

Yields-any {ℓ κ ι} :
    {S : Type 0} {A : Type ℓ} {B : Type κ} (P : B → Type ι) (m : Command S A) (f : A → Command S B)
    → ((a : A) → Yields P (f a))
    → Yields P (m >>= f)
unfolding ◌>>=◌
Yields-any P m f k w = Yields-next P f k (m w).0 (m w).1

-- No code of a command but `exit`.
abbrev GoesOn : ℤ → Type 0
GoesOn code = eq_ℤ code minus_one ≡ false

-- A code, which ends the interactive mode exactly if `b`.
abbrev pub EndsIf : Bool → Result ℤ → Type 0
EndsIf b r = (code : ℤ) × ((r ≡ ok code) × (eq_ℤ code minus_one ≡ b))

-- Whether the name stands for `exit`.
abbrev pub is_exit : Bytes → Bool
is_exit name = bytes_eq (codes "exit") name || bytes_eq (codes "quit") name

module _ (t : PropertyTree) {S : Type 0} (call_method : Bytes → List Bytes → S → S × Called t) where
  name_required-GoesOn : Yields GoesOn (name_required t call_method)
  name_required-GoesOn = Yields-any GoesOn _ _ λ u w. refl

  status_all-GoesOn : (pid : ℤ) → Yields GoesOn (status_all t call_method pid)
  unfolding status_all
  status_all-GoesOn pid =
      Yields-any GoesOn _ _ λ tree. Yields-any GoesOn _ _ λ infos. Yields-any GoesOn _ _ λ u w. refl

  if-Yields :
      (b : Bool) (m n : Command S ℤ)
      → Yields GoesOn m
      → Yields GoesOn n
      → Yields GoesOn (if b then m else n)
  if-Yields true m n h k = h
  if-Yields false m n h k = k

  run_command-GoesOn :
      (pid : ℤ) (m : Method) (args : List Bytes)
      → m ≢ exit
      → Yields GoesOn (run_command t call_method pid m args)
  unfolding run_command cmd_status cmd_start cmd_stop cmd_restart cmd_shutdown cmd_reload cmd_help
  run_command-GoesOn pid status [] h = status_all-GoesOn pid
  run_command-GoesOn pid status (name ∷ _) h =
      if-Yields (bytes_eq name (codes "all")) _ _ (status_all-GoesOn pid) (
        Yields-any GoesOn _ _
          λ tree. Yields-any GoesOn _ _ λ infos. Yields-any GoesOn _ _ λ u w. refl)
  run_command-GoesOn pid start [] h = name_required-GoesOn
  run_command-GoesOn pid start (name ∷ _) h =
      if-Yields (bytes_eq name (codes "all")) _ _
        (Yields-any GoesOn _ _ λ r. Yields-any GoesOn _ _ λ u w. refl)
        (Yields-any GoesOn _ _ λ r. Yields-any GoesOn _ _ λ u w. refl)
  run_command-GoesOn pid stop [] h = name_required-GoesOn
  run_command-GoesOn pid stop (name ∷ _) h =
      if-Yields (bytes_eq name (codes "all")) _ _
        (Yields-any GoesOn _ _ λ r. Yields-any GoesOn _ _ λ u w. refl)
        (Yields-any GoesOn _ _ λ r. Yields-any GoesOn _ _ λ u w. refl)
  run_command-GoesOn pid restart [] h = name_required-GoesOn
  run_command-GoesOn pid restart (name ∷ _) h =
      if-Yields (bytes_eq name (codes "all")) _ _
        (Yields-any GoesOn _ _ λ r. Yields-any GoesOn _ _ λ q. Yields-any GoesOn _ _ λ u w. refl)
        (Yields-any GoesOn _ _ λ r. Yields-any GoesOn _ _ λ q. Yields-any GoesOn _ _ λ u w. refl)
  run_command-GoesOn pid shutdown args h =
      Yields-any GoesOn _ _ λ u. Yields-any GoesOn _ _ λ r w. refl
  run_command-GoesOn pid reload args h =
      Yields-any GoesOn _ _ λ u. Yields-any GoesOn _ _ λ r. Yields-any GoesOn _ _ λ v w. refl
  run_command-GoesOn pid help args h = Yields-any GoesOn _ _ λ u w. refl
  run_command-GoesOn pid exit args h = absurd (h refl)

  find_command-exit : (name : Bytes) → is_exit name ≡ true → find_command name commands ≡ some exit
  unfolding find_command bytes_eq
  find_command-exit name h = elim (Bool-cases (bytes_eq (codes "exit") name)) [
    | inl e ↦
        subst (λ n. find_command n commands ≡ some exit) ((bytes_eq_iff (codes "exit") name).0 e)
          refl
    | inr e ↦
        subst (λ n. find_command n commands ≡ some exit)
          ((bytes_eq_iff (codes "quit") name).0 (ground (arith, h, e))) refl
  ]

  find_command-other :
      (name : Bytes) (m : Method)
      → is_exit name ≡ false
      → find_command name commands ≡ some m
      → m ≢ exit
  unfolding find_command
  find_command-other name m h e x = absurd (ground (arith, h, e, x))

  look_up-exit :
      (pid : ℤ) (name : Bytes) (args : List Bytes) (w : World S)
      → is_exit name ≡ true
      → look_up t call_method pid name args w ≡ (w, ok minus_one)
  unfolding look_up run_command cmd_exit
  look_up-exit pid name args w h = rw (find_command-exit name h) refl

  look_up-GoesOn :
      (pid : ℤ) (name : Bytes) (args : List Bytes)
      → is_exit name ≡ false
      → Yields GoesOn (look_up t call_method pid name args)
  unfolding look_up
  look_up-GoesOn pid name args h = elim (Option-cases (find_command name commands)) [
    | inl unknown ↦ rw unknown (Yields-any GoesOn _ _ λ u w. refl)
    | inr (m, known) ↦ rw known (run_command-GoesOn pid m args (find_command-other name m h known))
  ]

  -- What `execute_command` makes of a result.
  reported :
      (w : World S) (r : Result ℤ)
      → Holds GoesOn r
      → EndsIf false (caught (report t call_method) w r).1
  unfolding report ◌>>=◌
  reported w (ok code) h = (code, (refl, h))
  reported w (error e) h = (pos 1, (refl, refl))

  -- `execute_command` always returns a code, whatever the daemon answers: no exception leaves it. The
  -- code is -1, which ends the interactive mode, exactly for `exit` and `quit`.
  pub execute_command-EndsIf :
      (pid : ℤ) (method : Bytes) (args : List Bytes) (w : World S)
      → EndsIf (is_exit method) (execute_command t call_method pid method args w).1
  unfolding execute_command handle bytes_eq
  execute_command-EndsIf pid [] args w = (pos 0, (refl, refl))
  execute_command-EndsIf pid (c ∷ method) args w = elim (Bool-cases (is_exit (c ∷ method))) [
    | inl leaves ↦
        subst (λ b. EndsIf b (execute_command t call_method pid (c ∷ method) args w).1) (sym leaves)
          (rw (look_up-exit pid (c ∷ method) args w leaves) (minus_one, (refl, refl)))
    | inr stays ↦
        subst (λ b. EndsIf b (execute_command t call_method pid (c ∷ method) args w).1) (sym stays)
          (reported _ _ (look_up-GoesOn pid (c ∷ method) args stays w))
  ]
