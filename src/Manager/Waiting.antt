-- ===== src/Manager/Waiting.antt =====
-- process_manager.cpp, `reap_until_`: what its turns leave of a process that is being stopped.
use supervisorcpp.Prelude.{
  ℕ, suc, ◌≤◌, ◌<◌, true, false, List, [], ◌∷◌, ◌++◌, some, ℤ, pos, minus_one, ltb_ℤ, eq_ℤ, All,
  Bytes, ◌≡◌, refl, sym, ap, subst, ◌∙◌, inl, inr, Bool, Bool-cases, arith,
}
use supervisorcpp.Process.Types.{
  Process, State, stopping, stopped, backoff, has_pid, elapsed_seconds,
}
use supervisorcpp.Process.Spawn.{SpawnAnswers}
use supervisorcpp.Process.Descriptors.{spawn-Keeps, spawn-child}
use supervisorcpp.Process.Life.{WaitStatus, start, update, update_in, on_exit}
use supervisorcpp.Manager.Table.{Table, Manager, Os, Turn, reaps, ticks, idles, find, sweep}
use supervisorcpp.Manager.Loop.{notify, handle_sigchld, on_timer, take_turn, wait_turns}
use supervisorcpp.Manager.Control.{is_alive}
use supervisorcpp.Manager.Reaping.{trackers, notify-trackers, notify-find}

pub trackers-found :
    (name : Bytes) (pid : ℤ) (p : Process) (t : Table)
    → find name t ≡ some p
    → p.pid ≡ pid
    → 1 ≤ trackers pid t
unfolding find trackers
trackers-found name pid p [] e same = absurd (cc e)
trackers-found name pid p ((k, q) ∷ r) e same = ground (arith, trackers-found name pid p r)

-- The process stands in the table under its name, and it alone tracks its child.
abbrev pub IsAlone : Bytes → Process → Table → Type 0
IsAlone name q t = (find name t ≡ some q) × (trackers q.pid t ≡ 1)

-- A process that is being stopped is as it was behind an update.
update-stopping :
    (wide_shift : ℕ → ℤ) (a : SpawnAnswers) (now : ℕ) (q : Process)
    → q.state ≡ stopping
    → (update wide_shift a now q).0 ≡ q
unfolding update update_in
update-stopping wide_shift a now q e = ground arith

start-untracked :
    (a : SpawnAnswers) (now : ℕ) (p : Process) (pid : ℤ)
    → ltb_ℤ (pos 0) pid ≡ true
    → eq_ℤ a.child pid ≡ false
    → eq_ℤ p.pid pid ≡ false
    → eq_ℤ (start a now p).0.pid pid ≡ false
unfolding start
start-untracked a now p pid child new other = ground (arith, spawn-Keeps a p, spawn-child a p)

update_in-untracked :
    (s : State) (wide_shift : ℕ → ℤ) (a : SpawnAnswers) (now elapsed : ℕ) (p : Process) (pid : ℤ)
    → ltb_ℤ (pos 0) pid ≡ true
    → eq_ℤ a.child pid ≡ false
    → eq_ℤ p.pid pid ≡ false
    → eq_ℤ (update_in s wide_shift a now elapsed p).0.pid pid ≡ false
unfolding update_in
update_in-untracked backoff wide_shift a now elapsed p pid child new other =
    ground (arith, start-untracked a now p pid)
update_in-untracked _ wide_shift a now elapsed p pid child new other = ground arith

module _ (os : Os) where
  -- `fork` gives no process id that is in use.
  abbrev pub IsFresh : ℤ → Type 0
  IsFresh pid = (n : ℕ) → eq_ℤ (os.spawns n).child pid ≡ false

  abbrev updates : ℕ → Table → Table
  updates n t = (sweep (λ i p. update os.wide_shift (os.spawns i) (os.now i) p) n t).0

  sweep-trackers :
      (n : ℕ) (t : Table) (pid : ℤ)
      → ltb_ℤ (pos 0) pid ≡ true
      → IsFresh pid
      → trackers pid (updates n t) ≤ trackers pid t
  unfolding sweep trackers update
  sweep-trackers n [] pid child new = omega arith
  sweep-trackers n ((k, p) ∷ r) pid child new = ground (
    arith,
    sweep-trackers (suc n) r pid child new,
    new n,
    update_in-untracked p.state os.wide_shift (os.spawns n) (os.now n)
        (elapsed_seconds (os.now n) p.state_change_time) p pid child (new n),
  )

  sweep-stopping :
      (n : ℕ) (t : Table) (name : Bytes) (q : Process)
      → q.state ≡ stopping
      → find name t ≡ some q
      → find name (updates n t) ≡ some q
  unfolding sweep find
  sweep-stopping n [] name q s e = absurd (cc e)
  sweep-stopping n ((k, p) ∷ r) name q s e = ground (
    arith,
    sweep-stopping (suc n) r name q s,
    update-stopping os.wide_shift (os.spawns n) (os.now n) q s,
  )

  updates-IsAlone :
      (n : ℕ) (t : Table) (name : Bytes) (q : Process)
      → q.state ≡ stopping
      → ltb_ℤ (pos 0) q.pid ≡ true
      → IsFresh q.pid
      → IsAlone name q t
      → IsAlone name q (updates n t)
  updates-IsAlone n t name q s child new (e, alone) =
      let there = sweep-stopping n t name q s e in
      (
        there,
        omega (
          arith,
          alone,
          sweep-trackers n t q.pid child new,
          trackers-found name q.pid q (updates n t) there refl,
        ),
      )

-- The exit of another child.
notify-IsAlone :
    (now : ℕ) (pid : ℤ) (status : WaitStatus) (t : Table) (name : Bytes) (q : Process)
    → ltb_ℤ (pos 0) pid ≡ true
    → ltb_ℤ (pos 0) q.pid ≡ true
    → eq_ℤ q.pid pid ≡ false
    → IsAlone name q t
    → IsAlone name q (notify now pid status t)
notify-IsAlone now pid status t name q child mine other (e, alone) = (
  ground (arith, notify-find now pid status t name q e),
  ground (arith, notify-trackers now pid q.pid status t child mine),
)

handle_sigchld-IsAlone :
    (now : ℕ) (l : List (ℤ × WaitStatus)) (t : Table) (name : Bytes) (q : Process)
    → ltb_ℤ (pos 0) q.pid ≡ true
    → All (λ x. eq_ℤ q.pid x.0 ≡ false) l
    → IsAlone name q t
    → IsAlone name q (handle_sigchld now l t).0
unfolding handle_sigchld
handle_sigchld-IsAlone now [] t name q mine others h = h
handle_sigchld-IsAlone now ((pid, status) ∷ l) t name q mine (other, others) h =
    elim (Bool-cases (ltb_ℤ (pos 0) pid)) [
      | inl child ↦ rw child (
          handle_sigchld-IsAlone now l (notify now pid status t) name q mine others
            (notify-IsAlone now pid status t name q child mine other h))
      | inr end ↦ rw end h
    ]

-- A turn that reports no exit of this child.
abbrev pub IsOther : ℤ → Turn → Type 0
IsOther pid (reaps l) = All (λ x. eq_ℤ pid x.0 ≡ false) l
IsOther pid ticks = Unit
IsOther pid idles = Unit

-- Such turns, in time.
abbrev pub OthersBefore : ℤ → ℕ → List (ℕ × Turn) → Type 0
OthersBefore pid deadline = All (λ x. (x.0 < deadline) × IsOther pid x.1)

take_turn-IsAlone :
    (os : Os) (turn : Turn) (m : Manager) (name : Bytes) (q : Process)
    → q.state ≡ stopping
    → ltb_ℤ (pos 0) q.pid ≡ true
    → IsFresh os q.pid
    → IsOther q.pid turn
    → IsAlone name q m.process_map
    → IsAlone name q (take_turn os turn m).process_map
unfolding take_turn on_timer
take_turn-IsAlone os (reaps l) m name q s child new other h =
    handle_sigchld-IsAlone (os.now m.asked) l m.process_map name q child other h
take_turn-IsAlone os ticks m name q s child new other h =
    updates-IsAlone os m.asked m.process_map name q s child new h
take_turn-IsAlone os idles m name q s child new other h = h

-- The process is stopped, and nothing of its retries is left.
abbrev pub IsStopped : Bytes → Table → Type 0
IsStopped name t =
    (q : Process) × (find name t ≡ some q)
    × (q.state ≡ stopped)
    × (q.pid ≡ minus_one)
    × (q.retry_count ≡ 0)

on_exit-stopping :
    (now : ℕ) (status : WaitStatus) (q : Process)
    → q.state ≡ stopping
    → ((on_exit now status q).state ≡ stopped)
      × ((on_exit now status q).pid ≡ minus_one)
      × ((on_exit now status q).retry_count ≡ 0)
unfolding on_exit
on_exit-stopping now status q s = (ground arith, ground arith, ground arith)

-- The only process that tracks a child is told of its exit.
notify-found :
    (now : ℕ) (pid : ℤ) (status : WaitStatus) (name : Bytes) (p : Process) (t : Table)
    → find name t ≡ some p
    → p.pid ≡ pid
    → trackers pid t ≡ 1
    → find name (notify now pid status t) ≡ some (on_exit now status p)
unfolding find trackers notify
notify-found now pid status name p [] e same one = absurd (cc e)
notify-found now pid status name p ((k, q) ∷ r) e same one =
    ground (arith, notify-found now pid status name p r, trackers-found name pid p r)

take_turn-reaps :
    (os : Os) (pid : ℤ) (status : WaitStatus) (m : Manager)
    → ltb_ℤ (pos 0) pid ≡ true
    → (take_turn os (reaps ((pid, status) ∷ [])) m).process_map
      ≡ notify (os.now m.asked) pid status m.process_map
unfolding take_turn handle_sigchld
take_turn-reaps os pid status m child = ground arith

take_turn-IsStopped :
    (os : Os) (status : WaitStatus) (m : Manager) (name : Bytes) (q : Process)
    → q.state ≡ stopping
    → ltb_ℤ (pos 0) q.pid ≡ true
    → IsAlone name q m.process_map
    → IsStopped name (take_turn os (reaps ((q.pid, status) ∷ [])) m).process_map
take_turn-IsStopped os status m name q s child (e, alone) =
    let (down, gone, reset) = on_exit-stopping (os.now m.asked) status q s in
    (
      on_exit (os.now m.asked) status q,
      ap (find name) (take_turn-reaps os q.pid status m child)
          ∙ notify-found (os.now m.asked) q.pid status name q m.process_map e refl alone,
      down,
      gone,
      reset,
    )

pub is_alive-found :
    (name : Bytes) (p : Process) (t : Table) → find name t ≡ some p → is_alive name t ≡ has_pid p
unfolding is_alive
is_alive-found name p t e = rw (e, is_alive)

is_alive-IsStopped : (name : Bytes) (t : Table) → IsStopped name t → is_alive name t ≡ false
is_alive-IsStopped name t (q, e, down, gone, reset) =
    is_alive-found name q t e ∙ ap (λ z. ltb_ℤ (pos 0) z) gone

-- One round of the wait, where it goes on, and where it ends.
wait_turns-on :
    (os : Os) (deadline time : ℕ) (keep_waiting : Table → Bool) (turn : Turn)
    (rest : List (ℕ × Turn)) (m : Manager)
    → keep_waiting m.process_map ≡ true
    → time < deadline
    → wait_turns os deadline keep_waiting ((time, turn) ∷ rest) m
      ≡ wait_turns os deadline keep_waiting rest (take_turn os turn m)
unfolding wait_turns
wait_turns-on os deadline time keep_waiting turn rest m waits early = ground arith

wait_turns-ended :
    (os : Os) (deadline : ℕ) (keep_waiting : Table → Bool) (rest : List (ℕ × Turn)) (m : Manager)
    → keep_waiting m.process_map ≡ false
    → wait_turns os deadline keep_waiting rest m ≡ m
unfolding wait_turns
wait_turns-ended os deadline keep_waiting [] m ends = refl
wait_turns-ended os deadline keep_waiting ((time, turn) ∷ rest) m ends = ground arith

-- A wait in which the exit comes in time, behind whatever other turns.
pub wait_turns-IsStopped :
    (os : Os) (deadline time : ℕ) (status : WaitStatus) (before rest : List (ℕ × Turn))
    (m : Manager) (name : Bytes) (q : Process)
    → q.state ≡ stopping
    → ltb_ℤ (pos 0) q.pid ≡ true
    → IsFresh os q.pid
    → OthersBefore q.pid deadline before
    → time < deadline
    → IsAlone name q m.process_map
    → IsStopped name
        (wait_turns os deadline
          (is_alive name)
          (before ++ (time, reaps ((q.pid, status) ∷ [])) ∷ rest)
          m).process_map
wait_turns-IsStopped os deadline time status [] rest m name q s child new others early h =
    let turn : Turn = reaps ((q.pid, status) ∷ []) in
    let done = take_turn-IsStopped os status m name q s child h in
    let waits = is_alive-found name q m.process_map h.0 ∙ child in
    subst (λ (n : Manager). IsStopped name n.process_map)
      (sym (
        wait_turns-on os deadline time (is_alive name) turn rest m waits early
        ∙ wait_turns-ended os deadline (is_alive name) rest (take_turn os turn m)
            (is_alive-IsStopped name _ done)))
      done
wait_turns-IsStopped os deadline time status ((at, turn) ∷ before) rest m name q s child new
      ((soon, other), others) early h =
    let waits = is_alive-found name q m.process_map h.0 ∙ child in
    subst (λ (n : Manager). IsStopped name n.process_map)
      (sym (wait_turns-on os deadline at (is_alive name) turn _ m waits soon))
      (wait_turns-IsStopped os deadline time status before rest (take_turn os turn m) name q s child
        new others early (take_turn-IsAlone os turn m name q s child new other h))
