-- ===== src/Args.antt =====
-- supervisor-app/src/args_parser.cpp: the options that both programs have. Boost.Program_options
-- splits the arguments; what it finds is an argument.
use supervisorcpp.Prelude.{
  ◌||◌, ℕ, zero, suc, ◌-◌, ◌≤◌, Bool, true, false, List, [], ◌∷◌, Option, none, some, if◌then◌else◌,
  ltb, leb, min, pos, Bytes, codes, bytes_eq, Tried, returns, throws, ◌≡◌, refl, ap, ◌∙◌, arith,
  inl, inr, Bool-cases,
}
use supervisorcpp.Logger.Levels.{
  Levels, increment_log_level, console_shows, TrivialSeverity, IsInStep, level_number,
  severity_number, increment_log_level-console_shows, console_shows-number,
}

-- `CountValue`: what it counted, and what it last stored.
pub record CountValue : Type 0 where
  pub count : ℕ
  pub store : ℕ

abbrev pub create_count : CountValue
create_count = record { count = 0; store = 0 }

-- The value of one flag.
unfoldable pub xparse : CountValue → CountValue × ℕ
xparse v = let n = suc v.count in (record v { count = n; store = n }, n)

-- The value of the option where its flag is given so often; without one, the default.
unfoldable pub count_flags : ℕ → CountValue × ℕ
unfolding xparse
count_flags zero = (create_count, 0)
count_flags (suc n) = xparse (count_flags n).0

-- What Boost.Program_options finds in the arguments.
pub record Given : Type 0 where
  pub has_version : Bool
  pub has_help : Bool
  pub configuration : Option Bytes
  -- How often the verbosity flag is given.
  pub verbose_flags : ℕ
  -- The options of one program, with their values.
  pub values : List (Bytes × Bytes)
  -- What is no option.
  pub unrecognized : List Bytes

-- `ParsedArgs`.
pub record ParsedArgs : Type 0 where
  pub configuration : Bytes
  pub values : List (Bytes × Bytes)
  pub args : List Bytes

-- `vm.count(name)` and `vm[name]`.
unfoldable pub value_of : Bytes → List (Bytes × Bytes) → Option Bytes
unfolding bytes_eq
value_of name [] = none
value_of name ((k, value) ∷ l) =
    let rest = value_of name l in if bytes_eq k name then some value else rest

abbrev pub configuration_path : Option Bytes → Bytes
configuration_path none = codes "/etc/supervisord.conf"
configuration_path (some path) = path

-- `parse_args` behind the parser: nothing where only the version or the help is shown.
unfoldable pub parse_given : Given → Levels → Levels × Option ParsedArgs
unfolding count_flags increment_log_level
parse_given g l =
    let verbosity = (count_flags g.verbose_flags).1 in
    if g.has_version then (l, none) else if g.has_help then (l, none) else (
      if ltb 0 verbosity then increment_log_level (pos verbosity) l else l,
      some (record {
        configuration = configuration_path g.configuration;
        values = g.values;
        args = g.unrecognized;
      }),
    )

unfoldable pub parse_args :
    (List Bytes → Tried Given) → List Bytes → Levels → Levels × Tried (Option ParsedArgs)
unfolding parse_given
parse_args parse_options args l = elim (parse_options args) [
  | throws what ↦ (l, throws what)
  | returns g ↦ let (l', parsed) = parse_given g l in (l', returns parsed)
]

count_flags-counts : (n : ℕ) → ((count_flags n).0.count ≡ n) × ((count_flags n).1 ≡ n)
unfolding count_flags xparse
count_flags-counts zero = (refl, refl)
count_flags-counts (suc n) = (ap suc (count_flags-counts n).0, ap suc (count_flags-counts n).0)

-- The levels behind so many flags.
abbrev raised : ℕ → Levels → Levels
raised n l = if ltb 0 n then increment_log_level (pos n) l else l

raised-console_shows :
    (n : ℕ) (l : Levels) (severity : TrivialSeverity)
    → IsInStep l.console_sev
    → level_number l.console_sev.level ≤ 4
    → console_shows (raised n l) none severity
      ≡ leb (min 4 (level_number l.console_sev.level - n)) (severity_number severity)
raised-console_shows zero l severity step low =
    console_shows-number l severity step
    ∙ ap (λ k. leb k (severity_number severity)) (omega (arith, low))
raised-console_shows (suc n) l severity step low =
    let some_flags : ltb 0 (suc n) ≡ true = ground arith in
    ap (λ b. console_shows (if b then increment_log_level (pos (suc n)) l else l) none severity)
      some_flags
    ∙ (increment_log_level-console_shows (suc n) l severity step).1

abbrev parsed_from : Given → ParsedArgs
parsed_from g = record {
  configuration = configuration_path g.configuration;
  values = g.values;
  args = g.unrecognized;
}

parse_given-on :
    (g : Given) (l : Levels)
    → (g.has_version || g.has_help) ≡ false
    → parse_given g l ≡ (raised (count_flags g.verbose_flags).1 l, some (parsed_from g))
unfolding parse_given
parse_given-on g l goes_on = elim (Bool-cases g.has_version) [
  | inl v ↦ absurd (ground (arith, v, goes_on))
  | inr v ↦ elim (Bool-cases g.has_help) [
    | inl h ↦ absurd (ground (arith, h, v, goes_on))
    | inr h ↦ rw (v, h) refl
  ]
]

-- Where neither the version nor the help is asked for, the parser goes on with the path of the
-- configuration that is given or the default, and `n` verbosity flags show `n` levels more on the
-- console, down to `TRACE`; with the version or the help, no
-- level changes.
pub parse_given_lem :
    (g : Given) (l : Levels) (severity : TrivialSeverity)
    → IsInStep l.console_sev
    → level_number l.console_sev.level ≤ 4
    → ((g.has_version || g.has_help) ≡ true → parse_given g l ≡ (l, none))
      × ((g.has_version || g.has_help) ≡ false
          → (console_shows (parse_given g l).0 none severity
              ≡ leb
                  (min 4 (level_number l.console_sev.level - g.verbose_flags))
                  (severity_number severity))
            × ((parse_given g l).1 ≡ some (parsed_from g)))
unfolding parse_given
parse_given_lem g l severity step low = (
  λ shown. ground (arith, shown),
  λ goes_on.
      let on = parse_given-on g l goes_on in
      (
        ap (λ (x : Levels × Option ParsedArgs). console_shows x.0 none severity) on
            ∙ (ap (λ n. console_shows (raised n l) none severity)
                  (count_flags-counts g.verbose_flags).1
                ∙ raised-console_shows g.verbose_flags l severity step low),
        ap (λ (x : Levels × Option ParsedArgs). x.1) on,
      ),
)
