-- ===== src/Process/Life.antt =====
-- process.cpp: `start`, `stop`, `kill`, `on_exit`, `update`, `set_state_`.
use supervisorcpp.Prelude.{
  ℕ, ◌+◌, ◌^◌, ◌-◌, Bool, true, false, not, ◌&&◌, ◌||◌, List, [], ◌∷◌, ℤ, pos, negate, negsuc,
  minus_one, ltb, ltb_ℤ, leb_ℤ, ◌==◌, if◌then◌else◌, Bytes, codes, bytes_eq,
}
use supervisorcpp.Process.Types.{
  Process, State, starting, running, backoff, stopping, stopped, exited, fatal, state_eq, has_pid,
  elapsed_seconds,
}
use supervisorcpp.Process.Spawn.{SpawnAnswers, spawn}

pub data Signal : Type 0 where
  sigint sigquit sigkill sighup sigterm : Signal

-- A call of `::kill` that names a process and a signal.
pub record Sent : Type 0 where
  pub target : ℤ
  pub signal : Signal

-- An exit status as the macros of `waitpid` classify it.
pub data WaitStatus : Type 0 where
  exited_with signaled_by other_status : ℕ → WaitStatus

unfoldable pub set_state : ℕ → State → Process → Process
set_state now s p =
    if state_eq s p.state then p else record p { state = s; state_change_time = now }

-- A failed attempt to start: the next retry, or FATAL.
unfoldable pub count_failure : ℕ → Process → Process
unfolding set_state
count_failure now p =
    let retries = p.retry_count + 1 in
    set_state now (if leb_ℤ p.config.startretries (pos retries) then fatal else backoff)
      (record p { retry_count = retries })

unfoldable pub start : SpawnAnswers → ℕ → Process → Process × Bool
unfolding set_state count_failure
start a now p =
    if state_eq p.state running || state_eq p.state starting
    then (p, true)
    else (let s = spawn a p in
        if ltb_ℤ s.child (pos 0) then (count_failure now s.process, false) else (
          set_state now starting (record (s.process) { pid = s.child; start_time = now }),
          true,
        ))

-- The lambda of `stop`.
unfoldable pub stop_signal : Bytes → Signal
stop_signal name =
    if bytes_eq name (codes "INT")
    then sigint
    else if bytes_eq name (codes "QUIT")
    then sigquit
    else if bytes_eq name (codes "KILL")
    then sigkill
    else if bytes_eq name (codes "HUP")
    then sighup
    else sigterm

-- The flag says whether `::kill` succeeds.
unfoldable pub stop : Bool → ℕ → Process → Process × List Sent × Bool
unfolding set_state
stop kill_ok now p = if not (has_pid p) || state_eq p.state stopped then (p, [], false) else (
  record (set_state now stopping p) { stop_time = now },
  record { target = p.pid; signal = stop_signal p.config.stopsignal } ∷ [],
  kill_ok,
)

unfoldable pub kill : ℕ → Process → Process × List Sent
unfolding set_state
kill now p = if not (has_pid p) then (p, []) else (
  set_state now stopped (record p { pid = minus_one }),
  record { target = p.pid; signal = sigkill } ∷ [],
)

-- The raw status where neither macro applies.
abbrev pub decode_status : WaitStatus → ℤ
decode_status (exited_with code) = pos code
decode_status (signaled_by sig) = negate sig
decode_status (other_status raw) = pos raw

unfoldable pub should_autorestart : Process → Bool
should_autorestart p = p.config.autorestart && not (state_eq p.state fatal)

unfoldable pub on_exit : ℕ → WaitStatus → Process → Process
unfolding set_state count_failure should_autorestart
on_exit now status p₀ =
    let p = record p₀ { exitstatus = decode_status status; pid = minus_one } in
    if state_eq p.state stopping
    then record (set_state now stopped p) { retry_count = 0 }
    else if should_autorestart p
    then (if state_eq p.state starting then count_failure now p else set_state now backoff p)
    else set_state now exited p

-- `std::min(1 << retry_count_, 60)` on a 32-bit `int`. The shift by 31 gives the least `int`; what
-- a shift by 32 or more gives is not defined, and is the argument `wide_shift`.
unfoldable pub backoff_delay : (ℕ → ℤ) → ℕ → ℤ
backoff_delay wide_shift retries =
    let shifted =
      if ltb retries 31
      then pos (2 ^ retries)
      else if retries == 31
      then negsuc (2 ^ 31 - 1)
      else wide_shift retries in
    if ltb_ℤ (pos 60) shifted then pos 60 else shifted

-- `update` for the state that it finds.
unfoldable pub update_in : State → (ℕ → ℤ) → SpawnAnswers → ℕ → ℕ → Process → Process × List Sent
unfolding set_state
update_in State.starting wide_shift a now elapsed p =
    if leb_ℤ p.config.startsecs (pos elapsed)
    then (record (set_state now running p) { retry_count = 0 }, [])
    else (p, [])
update_in State.stopping wide_shift a now elapsed p =
    if leb_ℤ p.config.stopwaitsecs (pos elapsed)
    then (p, record { target = p.pid; signal = sigkill } ∷ [])
    else (p, [])
update_in State.backoff wide_shift a now elapsed p =
    if leb_ℤ (backoff_delay wide_shift p.retry_count) (pos elapsed)
    then ((start a now p).0, [])
    else (p, [])
update_in _ wide_shift a now elapsed p = (p, [])

unfoldable pub update : (ℕ → ℤ) → SpawnAnswers → ℕ → Process → Process × List Sent
unfolding update_in
update wide_shift a now p =
    update_in p.state wide_shift a now (elapsed_seconds now p.state_change_time) p

-- `get_uptime`.
unfoldable pub get_uptime : ℕ → Process → ℕ
get_uptime now p =
    if state_eq p.state running || state_eq p.state starting
    then elapsed_seconds now p.start_time
    else 0
