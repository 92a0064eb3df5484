-- ===== src/Process/Stopping.antt =====
-- process.cpp: which signals go out, and to whom.
use supervisorcpp.Prelude.{
  ℕ, Bool, true, false, List, [], ◌∷◌, ap, ◌∙◌, Bool-cases, inl, inr, bytes_eq, ℤ, pos, minus_one,
  ltb_ℤ, leb_ℤ, ◌≡◌, refl, subst, sym, arith, All, if◌then◌else◌, Bytes, codes, bytes_eq_iff,
}
use supervisorcpp.Process.Types.{
  Process, State, starting, backoff, stopping, stopped, state_eq, elapsed_seconds,
}
use supervisorcpp.Process.Spawn.{SpawnAnswers, spawn}
use supervisorcpp.Process.Descriptors.{spawn-Keeps}
use supervisorcpp.Process.Life.{
  start, stop, kill, on_exit, update, update_in, WaitStatus, Sent, sigkill, sigterm, stop_signal,
  backoff_delay,
}
use supervisorcpp.Process.Invariant.{IsConsistent, is_live}
use supervisorcpp.Util.Secure.{any_equal, validate_signal, valid}

-- A signal to the process's own child; never to 0 or -1, which stand for groups of processes.
abbrev pub ToChild : Process → Sent → Type 0
ToChild p s = (s.target ≡ p.pid) × (ltb_ℤ (pos 0) s.target ≡ true)

update_in-ToChild :
    (s : State) (wide_shift : ℕ → ℤ) (a : SpawnAnswers) (now elapsed : ℕ) (p : Process)
    → p.state ≡ s
    → IsConsistent p
    → All (ToChild p) (update_in s wide_shift a now elapsed p).1
unfolding update_in
update_in-ToChild stopping wide_shift a now elapsed p e h = ground arith
update_in-ToChild _ wide_shift a now elapsed p e h = ground arith

-- A consistent process signals only its own child, and a positive process id, in `stop`, `kill`
-- and `update`.
pub signals-ToChild :
    (kill_ok : Bool) (wide_shift : ℕ → ℤ) (a : SpawnAnswers) (now : ℕ) (p : Process)
    → IsConsistent p
    → All (ToChild p) (stop kill_ok now p).1
      × All (ToChild p) (kill now p).1
      × All (ToChild p) (update wide_shift a now p).1
unfolding stop kill update
signals-ToChild kill_ok wide_shift a now p h = (
  ground arith,
  ground arith,
  update_in-ToChild p.state wide_shift a now (elapsed_seconds now p.state_change_time) p refl h,
)

-- The course of a stop: the signal, the state, the timeout and the exit.
pub record StopsGracefully (kill_ok : Bool) (now : ℕ) (p : Process) : Type 0 where
  pub signalled :
      (stop kill_ok now p).1
      ≡ record { target = p.pid; signal = stop_signal p.config.stopsignal } ∷ []
  pub is_stopping : (stop kill_ok now p).0.state ≡ stopping
  -- The clock of the wait starts with the first of the stops.
  pub stop_begun :
      (stop kill_ok now p).0.state_change_time
      ≡ (if state_eq p.state stopping then p.state_change_time else now)
  pub patient :
      (wide_shift : ℕ → ℤ) (a : SpawnAnswers) (later : ℕ)
      → (update wide_shift a later (stop kill_ok now p).0).1 ≡ (
          if leb_ℤ p.config.stopwaitsecs (
            pos (
              elapsed_seconds later
                (if state_eq p.state stopping then p.state_change_time else now)))
          then record { target = p.pid; signal = sigkill } ∷ []
          else [])
  pub ends :
      (later : ℕ) (status : WaitStatus)
      → ((on_exit later status (stop kill_ok now p).0).state ≡ stopped)
        × ((on_exit later status (stop kill_ok now p).0).pid ≡ minus_one)
        × ((on_exit later status (stop kill_ok now p).0).retry_count ≡ 0)

pub stop-StopsGracefully :
    (kill_ok : Bool) (now : ℕ) (p : Process)
    → IsConsistent p
    → is_live p.state ≡ true
    → StopsGracefully kill_ok now p
unfolding stop update update_in on_exit
stop-StopsGracefully kill_ok now p h live = record {
  signalled = ground arith;
  is_stopping = ground arith;
  stop_begun = ground arith;
  patient = λ wide_shift a later. ground arith;
  ends = λ later status. ground arith;
}

-- The names that the configuration may give and `stop` does not tell from TERM.
abbrev pub other_signals : List Bytes
other_signals =
    codes "USR1" ∷ codes "USR2" ∷ codes "ABRT" ∷ codes "ALRM" ∷ codes "CONT" ∷ codes "STOP" ∷ []

any_equal-All :
    (Q : Bytes → Type 0) (name : Bytes) (l : List Bytes)
    → All Q l
    → any_equal name l ≡ true
    → Q name
unfolding any_equal
any_equal-All Q name [] h e = absurd (cc e)
any_equal-All Q name (x ∷ r) h e = elim (Bool-cases (bytes_eq x name)) [
  | inl same ↦ subst Q ((bytes_eq_iff x name).0 same) h.0
  | inr differs ↦ any_equal-All Q name r h.1 (ground arith)
]

other_signals-sigterm :
    (name : Bytes)
    → any_equal name other_signals ≡ true
    → (validate_signal name ≡ valid name) × (stop_signal name ≡ sigterm)
unfolding stop_signal validate_signal any_equal bytes_eq
other_signals-sigterm name other =
    any_equal-All (λ n. (validate_signal n ≡ valid n) × (stop_signal n ≡ sigterm)) name
      other_signals
      (
        (refl, refl),
        ((refl, refl), ((refl, refl), ((refl, refl), ((refl, refl), ((refl, refl), tt))))),
      )
      other

-- USR1, USR2, ABRT, ALRM, CONT and STOP pass the validation of the configuration, and yet `stop`
-- sends SIGTERM to a consistent live process with one of these as its `stopsignal`.
stop-other_signals :
    (kill_ok : Bool) (now : ℕ) (p : Process)
    → IsConsistent p
    → is_live p.state ≡ true
    → any_equal p.config.stopsignal other_signals ≡ true
    → (validate_signal p.config.stopsignal ≡ valid p.config.stopsignal)
      × ((stop kill_ok now p).1 ≡ record { target = p.pid; signal = sigterm } ∷ [])
stop-other_signals kill_ok now p h live other =
    let sent = other_signals-sigterm p.config.stopsignal other in
    (
      sent.0,
      (stop-StopsGracefully kill_ok now p h live).signalled
          ∙ ap (λ s. record { target = p.pid; signal = s } ∷ []) sent.1,
    )

update_in-backoff_start :
    (wide_shift : ℕ → ℤ) (a : SpawnAnswers) (now elapsed : ℕ) (p : Process)
    → leb_ℤ (backoff_delay wide_shift p.retry_count) (pos elapsed) ≡ true
    → (update_in backoff wide_shift a now elapsed p).0 ≡ (start a now p).0
unfolding update_in
update_in-backoff_start wide_shift a now elapsed p due = ground arith

-- A consistent process that waits in BACKOFF is not stopped: `stop` fails and changes nothing, and the next
-- update after the delay starts it again.
stop-backoff :
    (kill_ok : Bool) (now : ℕ) (p : Process) (wide_shift : ℕ → ℤ) (a : SpawnAnswers) (later : ℕ)
    → IsConsistent p
    → p.state ≡ backoff
    → leb_ℤ
        (backoff_delay wide_shift p.retry_count)
        (pos (elapsed_seconds later p.state_change_time))
      ≡ true
    → (stop kill_ok now p ≡ (p, [], false))
      × ((update wide_shift a later (stop kill_ok now p).0).0 ≡ (start a later p).0)
unfolding stop update
stop-backoff kill_ok now p wide_shift a later h s due =
    let none_left : stop kill_ok now p ≡ (p, [], false) = ground arith in
    (
      none_left,
      rw none_left (
          subst
            (λ q.
              (update_in q wide_shift a later (elapsed_seconds later p.state_change_time) p).0
              ≡ (start a later p).0)
            (sym s)
            (update_in-backoff_start wide_shift a later (elapsed_seconds later p.state_change_time)
              p due)),
    )

-- Starting a process that is still being stopped, where the spawn succeeds, replaces the process id
-- of the old child by the new one, and the state is STARTING.
start-stopping :
    (a : SpawnAnswers) (now : ℕ) (p : Process)
    → p.state ≡ stopping
    → ltb_ℤ (spawn a p).child (pos 0) ≡ false
    → ((start a now p).0.pid ≡ (spawn a p).child) × ((start a now p).0.state ≡ starting)
unfolding start
start-stopping a now p s up = ground (arith, spawn-Keeps a p)
