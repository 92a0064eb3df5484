-- ===== src/Manager/Shape.antt =====
-- process_manager.cpp: which programs the table holds, as its names and configurations in order.
use supervisorcpp.Prelude.{
  ℕ, suc, Bool, true, ◌&&◌, List, [], ◌∷◌, Option, none, some, ℤ, ltb, if◌then◌else◌, ◌≡◌, refl,
  sym, ap, subst, ◌∙◌, arith, inl, inr, Bool-cases, Option-cases, Bytes, bytes_eq,
}
use supervisorcpp.Process.Types.{Process, ProgramConfig, State}
use supervisorcpp.Process.Descriptors.{spawn-Keeps}
use supervisorcpp.Process.Spawn.{SpawnAnswers}
use supervisorcpp.Process.Life.{Sent, WaitStatus, start, stop, on_exit, update, update_in}
use supervisorcpp.Manager.Table.{
  Table, Manager, Os, Turn, reaps, ticks, idles, find, replace, sweep, bytes_lt, Below, IsMap,
}
use supervisorcpp.Manager.Loop.{notify, handle_sigchld, on_timer, take_turn, wait_turns, reap_until}
use supervisorcpp.Manager.Control.{start_process, stop_process, is_alive}

-- The names and their configurations, in order.
abbrev pub shape : Table → List (Bytes × ProgramConfig)
shape [] = []
shape ((k, p) ∷ r) = (k, p.config) ∷ shape r

unfoldable pub config_in : Bytes → List (Bytes × ProgramConfig) → Option ProgramConfig
config_in name [] = none
config_in name ((k, c) ∷ r) = if bytes_eq k name then some c else config_in name r

abbrev pub config_of_process : Option Process → Option ProgramConfig
config_of_process none = none
config_of_process (some p) = some p.config

-- The configuration under a name.
abbrev pub config_of : Bytes → Table → Option ProgramConfig
config_of name t = config_of_process (find name t)

config_of-shape : (name : Bytes) (t : Table) → config_of name t ≡ config_in name (shape t)
unfolding find config_in
config_of-shape name [] = refl
config_of-shape name ((k, p) ∷ r) = ground (arith, config_of-shape name r)

-- Tables of one shape have the same configurations.
pub shape-config_of :
    (name : Bytes) (t u : Table) → shape t ≡ shape u → config_of name t ≡ config_of name u
shape-config_of name t u e =
    config_of-shape name t ∙ ap (config_in name) e ∙ sym (config_of-shape name u)

abbrev BelowAll : Bytes → List (Bytes × ProgramConfig) → Type 0
BelowAll name [] = Unit
BelowAll name ((k, _) ∷ r) = (bytes_lt name k ≡ true) × BelowAll name r

abbrev Ascends : List (Bytes × ProgramConfig) → Type 0
Ascends [] = Unit
Ascends ((k, _) ∷ r) = BelowAll k r × Ascends r

Below-shape : (k : Bytes) (t : Table) → Below k t → BelowAll k (shape t)
Below-shape k [] h = tt
Below-shape k ((i, p) ∷ r) h = (h.0, Below-shape k r h.1)

shape-Below : (k : Bytes) (t : Table) → BelowAll k (shape t) → Below k t
shape-Below k [] h = tt
shape-Below k ((i, p) ∷ r) h = (h.0, shape-Below k r h.1)

IsMap-Ascends : (t : Table) → IsMap t → Ascends (shape t)
IsMap-Ascends [] h = tt
IsMap-Ascends ((k, p) ∷ r) h = (Below-shape k r h.0, IsMap-Ascends r h.1)

Ascends-IsMap : (t : Table) → Ascends (shape t) → IsMap t
Ascends-IsMap [] h = tt
Ascends-IsMap ((k, p) ∷ r) h = (shape-Below k r h.0, Ascends-IsMap r h.1)

pub shape-IsMap : (t u : Table) → shape t ≡ shape u → IsMap u → IsMap t
shape-IsMap t u e h = Ascends-IsMap t (subst Ascends (sym e) (IsMap-Ascends u h))

pub start-config : (a : SpawnAnswers) (now : ℕ) (p : Process) → (start a now p).0.config ≡ p.config
unfolding start
start-config a now p = ground (arith, spawn-Keeps a p)

pub stop-config :
    (kill_ok : Bool) (now : ℕ) (p : Process) → (stop kill_ok now p).0.config ≡ p.config
unfolding stop
stop-config kill_ok now p = ground arith

on_exit-config : (now : ℕ) (s : WaitStatus) (p : Process) → (on_exit now s p).config ≡ p.config
unfolding on_exit
on_exit-config now s p = ground arith

update_in-config :
    (s : State) (wide_shift : ℕ → ℤ) (a : SpawnAnswers) (now elapsed : ℕ) (p : Process)
    → (update_in s wide_shift a now elapsed p).0.config ≡ p.config
unfolding update_in
update_in-config State.backoff wide_shift a now elapsed p = ground (arith, start-config a now p)
update_in-config _ wide_shift a now elapsed p = ground arith

pub sweep-shape :
    (f : ℕ → Process → Process × List Sent) (n : ℕ) (t : Table)
    → ((n : ℕ) (p : Process) → (f n p).0.config ≡ p.config)
    → shape (sweep f n t).0 ≡ shape t
unfolding sweep
sweep-shape f n [] h = refl
sweep-shape f n ((k, p) ∷ r) h = cc (h n p, sweep-shape f (suc n) r h)

notify-shape :
    (now : ℕ) (pid : ℤ) (s : WaitStatus) (t : Table) → shape (notify now pid s t) ≡ shape t
unfolding notify
notify-shape now pid s [] = refl
notify-shape now pid s ((k, p) ∷ r) =
    ground (arith, on_exit-config now s p, notify-shape now pid s r)

pub handle_sigchld-shape :
    (now : ℕ) (l : List (ℤ × WaitStatus)) (t : Table) → shape (handle_sigchld now l t).0 ≡ shape t
unfolding handle_sigchld
handle_sigchld-shape now [] t = refl
handle_sigchld-shape now ((pid, s) ∷ r) t =
    ground (arith, handle_sigchld-shape now r (notify now pid s t), notify-shape now pid s t)

pub take_turn-shape :
    (os : Os) (turn : Turn) (m : Manager)
    → shape (take_turn os turn m).process_map ≡ shape m.process_map
unfolding take_turn on_timer update
take_turn-shape os (reaps l) m = handle_sigchld-shape (os.now m.asked) l m.process_map
take_turn-shape os ticks m =
    sweep-shape _ m.asked m.process_map (λ n p. update_in-config p.state _ _ _ _ p)
take_turn-shape os idles m = refl

pub wait_turns-shape :
    (os : Os) (deadline : ℕ) (keep_waiting : Table → Bool) (turns : List (ℕ × Turn)) (m : Manager)
    → shape (wait_turns os deadline keep_waiting turns m).process_map ≡ shape m.process_map
unfolding wait_turns
wait_turns-shape os deadline keep_waiting [] m = refl
wait_turns-shape os deadline keep_waiting ((time, turn) ∷ r) m =
    elim (Bool-cases (keep_waiting m.process_map && ltb time deadline)) [
      | inl waits ↦
          rw (waits, wait_turns)
            (wait_turns-shape os deadline keep_waiting r (take_turn os turn m)
              ∙ take_turn-shape os turn m)
      | inr stops ↦ rw (stops, wait_turns)
    ]

replace-shape :
    (name : Bytes) (p q : Process) (t : Table)
    → find name t ≡ some p
    → q.config ≡ p.config
    → shape (replace name q t) ≡ shape t
unfolding find replace
replace-shape name p q [] e c = refl
replace-shape name p q ((k, x) ∷ r) e c = ground (arith, replace-shape name p q r)

pub start_process-shape :
    (os : Os) (name : Bytes) (m : Manager)
    → shape (start_process os name m).0.process_map ≡ shape m.process_map
unfolding start_process
start_process-shape os name m = elim (Option-cases (find name m.process_map)) [
  | inl e ↦ rw (e, start_process)
  | inr (p, e) ↦
      rw (e, start_process)
        (replace-shape name p _ m.process_map e
          (start-config (os.spawns m.asked) (os.now m.asked) p))
]

pub stop_process-shape :
    (os : Os) (name : Bytes) (m : Manager)
    → shape (stop_process os name m).0.process_map ≡ shape m.process_map
unfolding stop_process reap_until
stop_process-shape os name m = elim (Option-cases (find name m.process_map)) [
  | inl e ↦ rw (e, stop_process)
  | inr (p, e) ↦
      let r = stop (os.kill_ok m.asked) (os.now m.asked) p in
      let same =
        replace-shape name p r.0 m.process_map e
          (stop-config (os.kill_ok m.asked) (os.now m.asked) p) in
      rw (e, stop_process)
        (elim (Bool-cases r.2) [
          | inl sent ↦ rw sent (wait_turns-shape os _ (is_alive name) _ _ ∙ same)
          | inr failed ↦ rw failed same
        ])
]
