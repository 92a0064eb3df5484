-- ===== src/Manager/Consistency.antt =====
-- process_manager.cpp: the invariant of Process/Invariant over the whole table, in the loops.
use supervisorcpp.Prelude.{
  ℕ, suc, Bool, true, ◌&&◌, List, [], ◌∷◌, some, ℤ, pos, ltb, ltb_ℤ, eq_ℤ, ◌≡◌, sym, subst, ◌∙◌,
  arith, inl, inr, Bool-cases, Bytes, bytes_eq,
}
use supervisorcpp.Process.Types.{Process}
use supervisorcpp.Process.Life.{Sent, WaitStatus}
use supervisorcpp.Process.Invariant.{
  IsConsistent, IsParent, on_exit-IsConsistent, update-IsConsistent,
}
use supervisorcpp.Manager.Table.{
  Table, Manager, Os, Turn, reaps, ticks, idles, find, set, replace, erase, sweep, bytes_lt,
}
use supervisorcpp.Manager.Loop.{notify, handle_sigchld, on_timer, take_turn, wait_turns, reap_until}

abbrev pub AllConsistent : Table → Type 0
AllConsistent [] = Unit
AllConsistent ((_, p) ∷ r) = IsConsistent p × AllConsistent r

some_eq : (q p : Process) → some q ≡ some p → q ≡ p
some_eq q p e = cc

pub AllConsistent-find :
    (name : Bytes) (t : Table) (p : Process)
    → AllConsistent t
    → find name t ≡ some p
    → IsConsistent p
unfolding find
AllConsistent-find name [] p h e = cc
AllConsistent-find name ((k, q) ∷ r) p h e = elim (Bool-cases (bytes_eq k name)) [
  | inl same ↦
      let taken : find name ((k, q) ∷ r) ≡ some q = ground arith in
      subst IsConsistent (some_eq q p (sym taken ∙ e)) h.0
  | inr other ↦
      let passed : find name ((k, q) ∷ r) ≡ find name r = ground arith in
      AllConsistent-find name r p h.1 (sym passed ∙ e)
]

pub AllConsistent-set :
    (name : Bytes) (p : Process) (t : Table)
    → IsConsistent p
    → AllConsistent t
    → AllConsistent (set name p t)
unfolding set
AllConsistent-set name p [] h g = (h, tt)
AllConsistent-set name p ((k, q) ∷ r) h g = elim (Bool-cases (bytes_eq k name)) [
  | inl same ↦ rw same (h, g.1)
  | inr other ↦ rw other (elim (Bool-cases (bytes_lt name k)) [
    | inl before ↦ rw before (h, (g.0, g.1))
    | inr behind ↦ rw behind (g.0, AllConsistent-set name p r h g.1)
  ])
]

pub AllConsistent-replace :
    (name : Bytes) (p : Process) (t : Table)
    → IsConsistent p
    → AllConsistent t
    → AllConsistent (replace name p t)
unfolding replace
AllConsistent-replace name p [] h g = tt
AllConsistent-replace name p ((k, q) ∷ r) h g = elim (Bool-cases (bytes_eq k name)) [
  | inl same ↦ rw same (h, g.1)
  | inr other ↦ rw other (g.0, AllConsistent-replace name p r h g.1)
]

pub AllConsistent-erase :
    (name : Bytes) (t : Table) → AllConsistent t → AllConsistent (erase name t)
unfolding erase
AllConsistent-erase name [] g = tt
AllConsistent-erase name ((k, q) ∷ r) g = elim (Bool-cases (bytes_eq k name)) [
  | inl same ↦ rw same g.1
  | inr other ↦ rw other (g.0, AllConsistent-erase name r g.1)
]

pub AllConsistent-sweep :
    (f : ℕ → Process → Process × List Sent) (n : ℕ) (t : Table)
    → ((n : ℕ) (p : Process) → IsConsistent p → IsConsistent (f n p).0)
    → AllConsistent t
    → AllConsistent (sweep f n t).0
unfolding sweep
AllConsistent-sweep f n [] keeps g = tt
AllConsistent-sweep f n ((k, p) ∷ r) keeps g =
    (keeps n p g.0, AllConsistent-sweep f (suc n) r keeps g.1)

pub AllConsistent-notify :
    (now : ℕ) (pid : ℤ) (status : WaitStatus) (t : Table)
    → ltb_ℤ (pos 0) pid ≡ true
    → AllConsistent t
    → AllConsistent (notify now pid status t)
unfolding notify
AllConsistent-notify now pid status [] h g = tt
AllConsistent-notify now pid status ((k, p) ∷ r) h g = elim (Bool-cases (eq_ℤ p.pid pid)) [
  | inl same ↦ rw same (on_exit-IsConsistent now status p (ground arith) g.0, g.1)
  | inr other ↦ rw other (g.0, AllConsistent-notify now pid status r h g.1)
]

pub AllConsistent-handle_sigchld :
    (now : ℕ) (l : List (ℤ × WaitStatus)) (t : Table)
    → AllConsistent t
    → AllConsistent (handle_sigchld now l t).0
unfolding handle_sigchld
AllConsistent-handle_sigchld now [] t g = g
AllConsistent-handle_sigchld now ((pid, status) ∷ r) t g = elim (Bool-cases (ltb_ℤ (pos 0) pid)) [
  | inl child ↦ rw child (
      AllConsistent-handle_sigchld now r (notify now pid status t)
        (AllConsistent-notify now pid status t child g))
  | inr none_left ↦ rw none_left g
]

-- Every fork answers as in the parent.
abbrev pub AllParent : Os → Type 0
AllParent os = (n : ℕ) → IsParent (os.spawns n)

module _ (os : Os) (parent : AllParent os) where
  pub AllConsistent-on_timer :
      (m : Manager) → AllConsistent m.process_map → AllConsistent (on_timer os m).process_map
  unfolding on_timer
  AllConsistent-on_timer m g =
      AllConsistent-sweep _ m.asked m.process_map
        (λ n p h. update-IsConsistent os.wide_shift (os.spawns n) (os.now n) p (parent n) h) g

  pub AllConsistent-take_turn :
      (turn : Turn) (m : Manager)
      → AllConsistent m.process_map
      → AllConsistent (take_turn os turn m).process_map
  unfolding take_turn
  AllConsistent-take_turn (reaps l) m g =
      AllConsistent-handle_sigchld (os.now m.asked) l m.process_map g
  AllConsistent-take_turn ticks m g = AllConsistent-on_timer m g
  AllConsistent-take_turn idles m g = g

  pub AllConsistent-wait_turns :
      (deadline : ℕ) (keep_waiting : Table → Bool) (turns : List (ℕ × Turn)) (m : Manager)
      → AllConsistent m.process_map
      → AllConsistent (wait_turns os deadline keep_waiting turns m).process_map
  unfolding wait_turns
  AllConsistent-wait_turns deadline keep_waiting [] m g = g
  AllConsistent-wait_turns deadline keep_waiting ((time, turn) ∷ r) m g =
      elim (Bool-cases (keep_waiting m.process_map && ltb time deadline)) [
        | inl waits ↦
            rw (waits, wait_turns)
              (AllConsistent-wait_turns deadline keep_waiting r (take_turn os turn m)
                (AllConsistent-take_turn turn m g))
        | inr stops ↦ rw (stops, wait_turns) g
      ]

  pub AllConsistent-reap_until :
      (seconds : ℕ) (keep_waiting : Table → Bool) (m : Manager)
      → AllConsistent m.process_map
      → AllConsistent (reap_until os seconds keep_waiting m).process_map
  unfolding reap_until
  AllConsistent-reap_until seconds keep_waiting m g =
      AllConsistent-wait_turns _ keep_waiting (os.turns m.asked) _ g
