-- ===== src/Logger/Levels.antt =====
-- logger.cpp: the levels of the two sinks, and which records they show.
use supervisorcpp.Prelude.{
  ℕ, suc, ◌+◌, ◌-◌, ◌≤◌, Bool, true, false, Option, none, some, leb, ◌==◌, if◌then◌else◌, min, ℤ,
  pos, negsuc, ◌≡◌, refl, ◌∙◌, ap, arith, inl, inr, Bool-cases,
}
use supervisorcpp.Config.Types.{LogLevel}

-- The severities of Boost's `trivial`, in their order.
pub data TrivialSeverity : Type 0 where
  trace debug info warning error fatal : TrivialSeverity

unfoldable pub to_trivial_severity : LogLevel → TrivialSeverity
to_trivial_severity LogLevel.trace = TrivialSeverity.trace
to_trivial_severity LogLevel.debug = TrivialSeverity.debug
to_trivial_severity LogLevel.info = TrivialSeverity.info
to_trivial_severity LogLevel.warn = TrivialSeverity.warning
to_trivial_severity LogLevel.error = TrivialSeverity.error
to_trivial_severity LogLevel.ignore = TrivialSeverity.fatal

-- The number of a level, `static_cast<int>`.
unfoldable pub level_number : LogLevel → ℕ
level_number LogLevel.trace = 0
level_number LogLevel.debug = 1
level_number LogLevel.info = 2
level_number LogLevel.warn = 3
level_number LogLevel.error = 4
level_number LogLevel.ignore = 5

unfoldable pub severity_number : TrivialSeverity → ℕ
severity_number TrivialSeverity.trace = 0
severity_number TrivialSeverity.debug = 1
severity_number TrivialSeverity.info = 2
severity_number TrivialSeverity.warning = 3
severity_number TrivialSeverity.error = 4
severity_number TrivialSeverity.fatal = 5

pub record LogLevelSeverity : Type 0 where
  pub level : LogLevel
  pub severity : TrivialSeverity

-- The constructor.
abbrev pub create_level : LogLevel → LogLevelSeverity
create_level level = record { level = level; severity = to_trivial_severity level }

-- `LogLevelSeverity::set`, with whether it changed the level.
unfoldable pub set_level : LogLevel → LogLevelSeverity → LogLevelSeverity × Bool
unfolding level_number to_trivial_severity
set_level level s =
    if level_number level == level_number s.level then (s, false) else (create_level level, true)

-- `Logger`.
pub record Levels : Type 0 where
  pub console_sev : LogLevelSeverity
  pub file_sev : LogLevelSeverity

unfoldable pub set_log_level : LogLevel → Levels → Levels
unfolding set_level
set_log_level level l = record l { console_sev = (set_level level l.console_sev).0 }

-- `std::clamp` between `TRACE` and `ERROR`, of a level's number less the amount.
unfoldable pub clamped : ℕ → ℤ → ℕ
clamped number (pos amount) = min 4 (number - amount)
clamped number (negsuc amount) = min 4 (number + suc amount)

-- `static_cast<LogLevel>`, of a number within the clamp.
unfoldable pub level_of : ℕ → LogLevel
level_of n =
    if n == 0
    then LogLevel.trace
    else if n == 1
    then LogLevel.debug
    else if n == 2
    then LogLevel.info
    else if n == 3
    then LogLevel.warn
    else LogLevel.error

unfoldable pub increment_log_level : ℤ → Levels → Levels
unfolding clamped level_of set_log_level level_number
increment_log_level amount l =
    set_log_level (level_of (clamped (level_number l.console_sev.level) amount)) l

-- `LogDest`, as a record may be tagged.
pub data LogDest : Type 0 where
  both console file : LogDest

-- The filter of the console sink.
unfoldable pub console_shows : Levels → Option LogDest → TrivialSeverity → Bool
unfolding severity_number
console_shows l (some LogDest.file) severity = false
console_shows l _ severity = leb (severity_number l.console_sev.severity) (severity_number severity)

-- The filter of the file sink.
unfoldable pub file_shows : Levels → Option LogDest → TrivialSeverity → Bool
unfolding severity_number
file_shows l (some LogDest.console) severity = false
file_shows l _ severity = leb (severity_number l.file_sev.severity) (severity_number severity)

level_number-level_of : (n : ℕ) → n ≤ 4 → level_number (level_of n) ≡ n
unfolding level_of level_number
level_number-level_of n h = ground arith

set_log_level-number :
    (level : LogLevel) (l : Levels)
    → level_number (set_log_level level l).console_sev.level ≡ level_number level
unfolding set_log_level set_level
set_log_level-number level l = ground arith

increment-number :
    (amount : ℕ) (l : Levels)
    → level_number (increment_log_level (pos amount) l).console_sev.level
      ≡ min 4 (level_number l.console_sev.level - amount)
unfolding increment_log_level clamped
increment-number amount l = set_log_level-number _ l ∙ level_number-level_of _ (omega arith)

-- The severity that is compared is that of the level.
abbrev pub IsInStep : LogLevelSeverity → Type 0
IsInStep s = s.severity ≡ to_trivial_severity s.level

severity_number-to_trivial :
    (level : LogLevel) → severity_number (to_trivial_severity level) ≡ level_number level
unfolding severity_number to_trivial_severity level_number
severity_number-to_trivial LogLevel.trace = refl
severity_number-to_trivial LogLevel.debug = refl
severity_number-to_trivial LogLevel.info = refl
severity_number-to_trivial LogLevel.warn = refl
severity_number-to_trivial LogLevel.error = refl
severity_number-to_trivial LogLevel.ignore = refl

set_level-IsInStep :
    (level : LogLevel) (s : LogLevelSeverity) → IsInStep s → IsInStep (set_level level s).0
unfolding set_level
set_level-IsInStep level s h = elim (Bool-cases (level_number level == level_number s.level)) [
  | inl same ↦ rw same h
  | inr new ↦ rw new refl
]

increment-IsInStep :
    (amount : ℤ) (l : Levels)
    → IsInStep l.console_sev
    → IsInStep (increment_log_level amount l).console_sev
unfolding increment_log_level set_log_level
increment-IsInStep amount l h = set_level-IsInStep _ l.console_sev h

pub console_shows-number :
    (l : Levels) (severity : TrivialSeverity)
    → IsInStep l.console_sev
    → console_shows l none severity
      ≡ leb (level_number l.console_sev.level) (severity_number severity)
unfolding console_shows
console_shows-number l severity h =
    ap (λ s. leb (severity_number s) (severity_number severity)) h
    ∙ ap (λ n. leb n (severity_number severity)) (severity_number-to_trivial l.console_sev.level)

-- Each verbosity flag shows one level more on the console, down to `TRACE`: behind `amount` of them,
-- an untagged record is shown exactly if its severity is at least the number of the level before,
-- less the amount, and not more than that of `ERROR`. The severity that is compared stays that of the
-- level.
pub increment_log_level-console_shows :
    (amount : ℕ) (l : Levels) (severity : TrivialSeverity)
    → IsInStep l.console_sev
    → IsInStep (increment_log_level (pos amount) l).console_sev
      × (console_shows (increment_log_level (pos amount) l) none severity
          ≡ leb (min 4 (level_number l.console_sev.level - amount)) (severity_number severity))
increment_log_level-console_shows amount l severity h =
    let kept = increment-IsInStep (pos amount) l h in
    (
      kept,
      console_shows-number (increment_log_level (pos amount) l) severity kept
          ∙ ap (λ n. leb n (severity_number severity)) (increment-number amount l),
    )
