-- ===== src/Main.antt =====
-- supervisor-app/src/main.cpp: which of the two programs runs, and with which arguments.
use supervisorcpp.Prelude.{
  Bool, true, false, ◌||◌, List, [], ◌∷◌, ◌++◌, Option, none, some, if◌then◌else◌, Bytes, codes,
  begins, bytes_eq, All, ◌≡◌, refl, arith,
}

-- What `main` calls: the daemon, or the control program with `called_supervisorctl`; with the
-- arguments behind the name of the program.
pub data Mode : Type 0 where
  daemon : List Bytes → Mode
  control : Bool → List Bytes → Mode

abbrev pub is_daemon_option : Bytes → Bool
is_daemon_option arg = bytes_eq arg (codes "-d") || bytes_eq arg (codes "--daemon")

-- The loop over the arguments: what is left of them where one asks for the daemon.
unfoldable pub without_daemon : List Bytes → Option (List Bytes)
unfolding begins bytes_eq
without_daemon [] = none
without_daemon (arg ∷ r) =
    let rest = without_daemon r in
    if begins (codes "-") arg
    then (if is_daemon_option arg
        then some r
        else elim rest [ none ↦ none | some kept ↦ some (arg ∷ kept) ])
    else if bytes_eq arg (codes "d")
    then some r
    else none

-- `main`, with `argv[0]` without its directories.
unfoldable pub main_mode : Bytes → List Bytes → Mode
unfolding without_daemon bytes_eq
main_mode program_name args =
    if bytes_eq program_name (codes "supervisorctl")
    then control true args
    else if bytes_eq program_name (codes "supervisord")
    then daemon args
    else elim (without_daemon args) [ some kept ↦ daemon kept | none ↦ control false args ]

-- An option that does not ask for the daemon.
abbrev pub IsSkipped : Bytes → Type 0
IsSkipped arg = (begins (codes "-") arg ≡ true) × (is_daemon_option arg ≡ false)

-- The argument asks for the daemon.
abbrev pub asks_daemon : Bytes → Bool
asks_daemon arg = if begins (codes "-") arg then is_daemon_option arg else bytes_eq arg (codes "d")

without_daemon-found :
    (before after : List Bytes) (arg : Bytes)
    → All IsSkipped before
    → asks_daemon arg ≡ true
    → without_daemon (before ++ arg ∷ after) ≡ some (before ++ after)
unfolding without_daemon
without_daemon-found [] after arg h k = ground (arith, k)
without_daemon-found (b ∷ before) after arg (h, hs) k =
    ground (arith, h, without_daemon-found before after arg hs k)

without_daemon-word :
    (before after : List Bytes) (arg : Bytes)
    → All IsSkipped before
    → begins (codes "-") arg ≡ false
    → asks_daemon arg ≡ false
    → without_daemon (before ++ arg ∷ after) ≡ none
unfolding without_daemon
without_daemon-word [] after arg h d k = ground (arith, d, k)
without_daemon-word (b ∷ before) after arg (h, hs) d k =
    ground (arith, h, without_daemon-word before after arg hs d k)

without_daemon-options : (args : List Bytes) → All IsSkipped args → without_daemon args ≡ none
unfolding without_daemon
without_daemon-options [] h = refl
without_daemon-options (b ∷ args) (h, hs) = ground (arith, h, without_daemon-options args hs)

-- Under a name that is neither of the two programs', behind options that do not ask for it: `-d`,
-- `--daemon` or `d` starts the daemon with all the other arguments in their order; another word, or
-- the end of the arguments, the control program with all of them.
main_mode_lem :
    (name : Bytes) (before after : List Bytes) (arg : Bytes)
    → bytes_eq name (codes "supervisorctl") ≡ false
    → bytes_eq name (codes "supervisord") ≡ false
    → All IsSkipped before
    → (asks_daemon arg ≡ true → main_mode name (before ++ arg ∷ after) ≡ daemon (before ++ after))
      × ((begins (codes "-") arg ≡ false
            → asks_daemon arg ≡ false
            → main_mode name (before ++ arg ∷ after) ≡ control false (before ++ arg ∷ after))
          × (main_mode name before ≡ control false before))
unfolding main_mode
main_mode_lem name before after arg n m h = (
  λ k. rw (n, m, without_daemon-found before after arg h k, main_mode) refl,
  (
    λ d k. rw (n, m, without_daemon-word before after arg h d k, main_mode) refl,
    rw (n, m, without_daemon-options before h, main_mode) refl,
  ),
)
