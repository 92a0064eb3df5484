-- ===== src/Manager/Sync.antt =====
-- process_manager.cpp, `sync_processes`; config_types.h, `ProgramConfig::operator==`.
-- The count of changes only feeds a log message.
use supervisorcpp.Prelude.{
  ℕ, Bool, true, false, not, ◌&&◌, ◌||◌, List, [], ◌∷◌, Option, none, some, ℤ, eq_ℤ, ◌==◌,
  if◌then◌else◌, Bytes, bytes_eq, bytes_eq_iff, ◌≡◌, ◌↔◌, refl, arith,
}
use supervisorcpp.Process.Types.{ProgramConfig, Log}
use supervisorcpp.Manager.Table.{Manager, Os, find, keys}
use supervisorcpp.Manager.Control.{LogFiles, add_process, remove_process, start_process}

unfoldable pub bool_eq : Bool → Bool → Bool
bool_eq true b = b
bool_eq false b = not b

unfoldable pub option_eq : Option Bytes → Option Bytes → Bool
option_eq none none = true
option_eq (some a) (some b) = bytes_eq a b
option_eq _ _ = false

unfoldable pub umask_eq : Option ℕ → Option ℕ → Bool
umask_eq none none = true
umask_eq (some a) (some b) = a == b
umask_eq _ _ = false

unfoldable pub environment_eq : List (Bytes × Bytes) → List (Bytes × Bytes) → Bool
environment_eq [] [] = true
environment_eq ((k, v) ∷ r) ((j, w) ∷ s) = bytes_eq k j && bytes_eq v w && environment_eq r s
environment_eq _ _ = false

unfoldable pub log_eq : Log → Log → Bool
log_eq a b =
    option_eq a.file b.file
    && a.file_maxbytes == b.file_maxbytes
    && eq_ℤ a.file_backups b.file_backups

-- Member by member, in the order of the declaration: the first six, then the others.
unfoldable pub program_eq : ProgramConfig → ProgramConfig → Bool
program_eq a b =
    bytes_eq a.name b.name
    && bytes_eq a.command b.command
    && environment_eq a.environment b.environment
    && option_eq a.directory b.directory
    && bool_eq a.autorestart b.autorestart
    && bytes_eq a.user b.user

unfoldable pub control_eq : ProgramConfig → ProgramConfig → Bool
control_eq a b =
    log_eq a.stdout_log b.stdout_log
    && log_eq a.stderr_log b.stderr_log
    && bool_eq a.redirect_stderr b.redirect_stderr
    && eq_ℤ a.startsecs b.startsecs
    && eq_ℤ a.startretries b.startretries
    && eq_ℤ a.stopwaitsecs b.stopwaitsecs
    && bytes_eq a.stopsignal b.stopsignal
    && umask_eq a.umask b.umask

unfoldable pub config_eq : ProgramConfig → ProgramConfig → Bool
config_eq a b = program_eq a b && control_eq a b

-- `new_names.contains(name)`.
unfoldable pub names_program : Bytes → List ProgramConfig → Bool
names_program name [] = false
names_program name (c ∷ r) = bytes_eq c.name name || names_program name r

-- The loop over the map as it was when the loop began.
unfoldable pub remove_stale : Os → List ProgramConfig → List Bytes → Manager → Manager
remove_stale os programs [] m = m
remove_stale os programs (name ∷ r) m =
    remove_stale os programs r
      (if names_program name programs then m else (remove_process os name m).0)

-- The body of the second loop.
unfoldable pub sync_program : Os → (ℕ → LogFiles) → ProgramConfig → Manager → Manager
sync_program os files c m = elim (find c.name m.process_map) [
  | none ↦ let added = add_process os (files m.asked) c m in (start_process os c.name added).0
  | some p ↦
      if config_eq p.config c
      then m
      else (let removed = (remove_process os c.name m).0 in
          let added = add_process os (files removed.asked) c removed in
          (start_process os c.name added).0)
]

unfoldable pub sync_programs : Os → (ℕ → LogFiles) → List ProgramConfig → Manager → Manager
sync_programs os files [] m = m
sync_programs os files (c ∷ r) m = sync_programs os files r (sync_program os files c m)

unfoldable pub sync_processes : Os → (ℕ → LogFiles) → List ProgramConfig → Manager → Manager
sync_processes os files programs m =
    sync_programs os files programs (remove_stale os programs (keys m.process_map) m)

environment_eq_iff : (a b : List (Bytes × Bytes)) → (environment_eq a b ≡ true) ↔ (a ≡ b)
unfolding environment_eq
environment_eq_iff ((k, v) ∷ a) ((j, w) ∷ b) =
    ground (arith, bytes_eq_iff k j, bytes_eq_iff v w, environment_eq_iff a b)
environment_eq_iff _ _ = ground arith

option_eq_iff : (a b : Option Bytes) → (option_eq a b ≡ true) ↔ (a ≡ b)
unfolding option_eq
option_eq_iff (some a) (some b) = ground (arith, bytes_eq_iff a b)
option_eq_iff _ _ = ground arith

umask_eq_iff : (a b : Option ℕ) → (umask_eq a b ≡ true) ↔ (a ≡ b)
unfolding umask_eq
umask_eq_iff (some a) (some b) = ground arith
umask_eq_iff _ _ = ground arith

bool_eq_iff : (a b : Bool) → (bool_eq a b ≡ true) ↔ (a ≡ b)
unfolding bool_eq
bool_eq_iff a b = ground arith

eq_ℤ_iff : (a b : ℤ) → (eq_ℤ a b ≡ true) ↔ (a ≡ b)
eq_ℤ_iff a b = ground arith

log_eq_iff : (a b : Log) → (log_eq a b ≡ true) ↔ (a ≡ b)
unfolding log_eq
log_eq_iff a b = ground (arith, option_eq_iff a.file b.file, eq_ℤ_iff a.file_backups b.file_backups)

&&_true : (a b : Bool) → (a && b) ≡ true → (a ≡ true) × (b ≡ true)
&&_true a b h = ground arith

program_eq-parts :
    (a b : ProgramConfig)
    → program_eq a b ≡ true
    → (a.name ≡ b.name)
      × (a.command ≡ b.command)
      × (a.environment ≡ b.environment)
      × (a.directory ≡ b.directory)
      × (a.autorestart ≡ b.autorestart)
      × (a.user ≡ b.user)
unfolding program_eq
program_eq-parts a b = ground (
  arith,
  bytes_eq_iff a.name b.name,
  bytes_eq_iff a.command b.command,
  environment_eq_iff a.environment b.environment,
  option_eq_iff a.directory b.directory,
  bool_eq_iff a.autorestart b.autorestart,
  bytes_eq_iff a.user b.user,
)

control_eq-parts :
    (a b : ProgramConfig)
    → control_eq a b ≡ true
    → (a.stdout_log ≡ b.stdout_log)
      × (a.stderr_log ≡ b.stderr_log)
      × (a.redirect_stderr ≡ b.redirect_stderr)
      × (a.startsecs ≡ b.startsecs)
      × (a.startretries ≡ b.startretries)
      × (a.stopwaitsecs ≡ b.stopwaitsecs)
      × (a.stopsignal ≡ b.stopsignal)
      × (a.umask ≡ b.umask)
unfolding control_eq
control_eq-parts a b = ground (
  arith,
  log_eq_iff a.stdout_log b.stdout_log,
  log_eq_iff a.stderr_log b.stderr_log,
  bool_eq_iff a.redirect_stderr b.redirect_stderr,
  eq_ℤ_iff a.startsecs b.startsecs,
  eq_ℤ_iff a.startretries b.startretries,
  eq_ℤ_iff a.stopwaitsecs b.stopwaitsecs,
  bytes_eq_iff a.stopsignal b.stopsignal,
  umask_eq_iff a.umask b.umask,
)

config_eq→eq : (a b : ProgramConfig) → config_eq a b ≡ true → a ≡ b
unfolding config_eq
config_eq→eq a b e =
    let both = &&_true (program_eq a b) (control_eq a b) e in
    let (p₁, p₂, p₃, p₄, p₅, p₆) = program_eq-parts a b both.0 in
    let (c₁, c₂, c₃, c₄, c₅, c₆, c₇, c₈) = control_eq-parts a b both.1 in
    λ i. record {
      name = p₁ i;
      command = p₂ i;
      environment = p₃ i;
      directory = p₄ i;
      autorestart = p₅ i;
      user = p₆ i;
      stdout_log = c₁ i;
      stderr_log = c₂ i;
      redirect_stderr = c₃ i;
      startsecs = c₄ i;
      startretries = c₅ i;
      stopwaitsecs = c₆ i;
      stopsignal = c₇ i;
      umask = c₈ i;
    }

config_eq_refl : (a : ProgramConfig) → config_eq a a ≡ true
unfolding config_eq program_eq control_eq
config_eq_refl a = rw (
  (bytes_eq_iff a.name a.name).1 refl,
  (bytes_eq_iff a.command a.command).1 refl,
  (environment_eq_iff a.environment a.environment).1 refl,
  (option_eq_iff a.directory a.directory).1 refl,
  (bool_eq_iff a.autorestart a.autorestart).1 refl,
  (bytes_eq_iff a.user a.user).1 refl,
  (log_eq_iff a.stdout_log a.stdout_log).1 refl,
  (log_eq_iff a.stderr_log a.stderr_log).1 refl,
  (bool_eq_iff a.redirect_stderr a.redirect_stderr).1 refl,
  (eq_ℤ_iff a.startsecs a.startsecs).1 refl,
  (eq_ℤ_iff a.startretries a.startretries).1 refl,
  (eq_ℤ_iff a.stopwaitsecs a.stopwaitsecs).1 refl,
  (bytes_eq_iff a.stopsignal a.stopsignal).1 refl,
  (umask_eq_iff a.umask a.umask).1 refl,
)

-- Two configurations compare equal exactly when they are the same.
pub config_eq_iff : (a b : ProgramConfig) → (config_eq a b ≡ true) ↔ (a ≡ b)
config_eq_iff a b = (config_eq→eq a b, λ e. rw e (config_eq_refl b))
