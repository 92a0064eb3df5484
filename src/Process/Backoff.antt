-- ===== src/Process/Backoff.antt =====
-- process.cpp: retries, the delay between them, and FATAL.
use supervisorcpp.Prelude.{
  ℕ, zero, suc, ◌+◌, ◌<◌, ◌≤◌, ◌^◌, ◌-◌, true, false, ◌||◌, List, [], ◌∷◌, ℤ, pos, leb_ℤ, ltb_ℤ,
  ltb, if◌then◌else◌, ◌≡◌, ◌≢◌, inl, inr, refl, sym, subst, ap, ◌∙◌, arith, length, All, Bool-cases,
}
use native.Mathlib.Nat.{pow-suc}
use supervisorcpp.Process.Types.{
  Process, State, starting, running, backoff, fatal, state_eq, elapsed_seconds,
}
use supervisorcpp.Process.Spawn.{SpawnAnswers}
use supervisorcpp.Process.Descriptors.{spawn-Keeps, spawn-child}
use supervisorcpp.Process.Life.{start, update, update_in, backoff_delay}

two_pow_ge : (k n : ℕ) → n ≡ 6 + k → 64 ≤ 2 ^ n
two_pow_ge zero n e = rw e (omega arith)
two_pow_ge (suc k) zero e = absurd (omega arith)
two_pow_ge (suc k) (suc n) e = omega (arith, two_pow_ge k n (omega arith), pow-suc 2 n)

doubles_few :
    (wide_shift : ℕ → ℤ) (retries : ℕ)
    → retries < 6
    → backoff_delay wide_shift retries ≡ pos (2 ^ retries)
unfolding backoff_delay
doubles_few wide_shift zero h = refl
doubles_few wide_shift (suc zero) h = refl
doubles_few wide_shift (suc (suc zero)) h = refl
doubles_few wide_shift (suc (suc (suc zero))) h = refl
doubles_few wide_shift (suc (suc (suc (suc zero)))) h = refl
doubles_few wide_shift (suc (suc (suc (suc (suc zero))))) h = refl
doubles_few wide_shift (suc (suc (suc (suc (suc (suc n)))))) h = absurd (omega arith)

-- Up to 30 retries the delay doubles with each, from one second, and is 60 seconds from the sixth.
backoff_delay-doubles :
    (wide_shift : ℕ → ℤ) (retries : ℕ)
    → retries < 31
    → backoff_delay wide_shift retries ≡ pos (if ltb retries 6 then 2 ^ retries else 60)
unfolding backoff_delay
backoff_delay-doubles wide_shift retries h = elim (Bool-cases (ltb retries 6)) [
  | inl few ↦ rw few (doubles_few wide_shift retries (ground arith))
  | inr many ↦ rw many (ground (arith, two_pow_ge (retries - 6) retries (ground arith)))
]

update_in-no_delay :
    (wide_shift : ℕ → ℤ) (a : SpawnAnswers) (now elapsed : ℕ) (p : Process)
    → p.retry_count ≡ 31
    → (update_in backoff wide_shift a now elapsed p).0 ≡ (start a now p).0
unfolding update_in backoff_delay
update_in-no_delay wide_shift a now elapsed p r = ground arith

-- At 31 retries the delay is negative: the next `update` starts the process, however short the
-- time is that it has waited.
update-no_delay :
    (wide_shift : ℕ → ℤ) (a : SpawnAnswers) (now : ℕ) (p : Process)
    → p.state ≡ backoff
    → p.retry_count ≡ 31
    → (update wide_shift a now p).0 ≡ (start a now p).0
unfolding update
update-no_delay wide_shift a now p s r =
    subst
      (λ q.
        (update_in q wide_shift a now (elapsed_seconds now p.state_change_time) p).0
        ≡ (start a now p).0)
      (sym s) (update_in-no_delay wide_shift a now (elapsed_seconds now p.state_change_time) p r)

-- Attempts to start whose spawn fails, each with the time at which it is made.
abbrev pub Attempts : Type 0
Attempts = List (SpawnAnswers × ℕ)

unfoldable pub try_all : Attempts → Process → Process
try_all [] p = p
try_all ((a, now) ∷ r) p = try_all r (start a now p).0

abbrev pub FailsToSpawn : SpawnAnswers × ℕ → Type 0
FailsToSpawn x = ltb_ℤ x.0.child (pos 0) ≡ true

-- The state after `n` failures, of which the last is counted.
abbrev failed_state : ℤ → ℕ → State
failed_state startretries n = if leb_ℤ startretries (pos n) then fatal else backoff

start_fails :
    (a : SpawnAnswers) (now : ℕ) (p : Process)
    → ltb_ℤ a.child (pos 0) ≡ true
    → (state_eq p.state running || state_eq p.state starting) ≡ false
    → ((start a now p).0.retry_count ≡ p.retry_count + 1)
      × ((start a now p).0.state ≡ failed_state p.config.startretries (p.retry_count + 1))
      × ((start a now p).0.config ≡ p.config)
      × ((start a now p).1 ≡ false)
unfolding start
start_fails a now p f s = ground (arith, spawn-Keeps a p, spawn-child a p)

-- From a process that is neither RUNNING nor STARTING, `length l` failed spawns in a row count as many retries, and leave
-- it in FATAL from the attempt on that reaches `startretries`, before that in BACKOFF.
pub try_all-FailsToSpawn :
    (l : Attempts) (p : Process)
    → All FailsToSpawn l
    → l ≢ []
    → (state_eq p.state running || state_eq p.state starting) ≡ false
    → ((try_all l p).retry_count ≡ p.retry_count + length l)
      × ((try_all l p).state ≡ failed_state p.config.startretries (p.retry_count + length l))
unfolding try_all
try_all-FailsToSpawn [] p h n s = absurd (n refl)
try_all-FailsToSpawn ((a, now) ∷ []) p h n s = let one = start_fails a now p h.0 s in (one.0, one.1)
try_all-FailsToSpawn ((a, now) ∷ y ∷ r) p h n s =
    let one = start_fails a now p h.0 s in
    let rest =
      try_all-FailsToSpawn (y ∷ r) (start a now p).0 h.1 (λ e. cc) (ground (arith, one.1)) in
    let count : (start a now p).0.retry_count + length (y ∷ r)
        ≡ p.retry_count + length ((a, now) ∷ y ∷ r) =
      omega (arith, one.0) in
    (
      rest.0 ∙ count,
      rest.1
          ∙ ap (λ c. failed_state c.startretries ((start a now p).0.retry_count + length (y ∷ r)))
              one.2
          ∙ ap (failed_state p.config.startretries) count,
    )
