-- ===== src/Process/Child.antt =====
-- process.cpp: the child's part of a spawn, `setup_child_process_`, `switch_user_`,
-- `setup_working_directory_`, `setup_environment_`; util/secure.cpp: `close_inherited_fds`,
-- `verify_privilege_drop`.
-- The child is the list of the system calls that it makes, in order; `ChildAnswers` is what they
-- answer.
use supervisorcpp.Prelude.{
  ℕ, zero, suc, ◌+◌, ◌-◌, Bool, true, false, not, ◌&&◌, ◌||◌, List, [], ◌∷◌, ◌++◌, Option, none,
  some, map, ◌==◌, if◌then◌else◌, Bytes, codes, bytes_eq, ◌≡◌, ◌≢◌, ◌⊎◌, inl, inr, refl, sym, ap,
  ◌∙◌, arith, Bool-cases, Option-cases,
}
use supervisorcpp.Process.Types.{ProgramConfig}
use supervisorcpp.Process.Command.{parse_command}

pub record Account : Type 0 where
  pub uid : ℕ
  pub gid : ℕ

-- The hard limit that `getrlimit` reports.
pub data FdLimit : Type 0 where
  unknown unlimited : FdLimit
  limited : ℕ → FdLimit

pub record ChildAnswers : Type 0 where
  pub fd_limit : FdLimit
  pub chdir_ok : Bool
  -- `getuid` before the switch.
  pub uid : ℕ
  -- `getpwnam`.
  pub account : Option Account
  pub initgroups_ok : Bool
  pub setgid_ok : Bool
  pub setuid_ok : Bool
  -- The ids after the switch.
  pub real_uid : ℕ
  pub effective_uid : ℕ
  pub real_gid : ℕ
  pub effective_gid : ℕ

pub data SysCall : Type 0 where
  resets_signals : SysCall
  closes_fd : ℕ → SysCall
  chdirs : Bytes → SysCall
  setenvs : Bytes → Bytes → SysCall
  umasks : ℕ → SysCall
  initgroups setgids setuids : ℕ → SysCall
  execs : List Bytes → SysCall
  exits : ℕ → SysCall

-- `for (int fd = 3; fd < max_fd; fd++)`, with the rounds left.
unfoldable pub close_from : ℕ → ℕ → List SysCall
close_from fd zero = []
close_from fd (suc n) = closes_fd fd ∷ close_from (fd + 1) n

unfoldable pub close_inherited_fds : FdLimit → List SysCall
unfolding close_from
close_inherited_fds unknown = []
close_inherited_fds unlimited = close_from 3 (1024 - 3)
close_inherited_fds (limited n) = close_from 3 (n - 3)

-- The calls of `setup_working_directory_`, and its result.
unfoldable pub setup_working_directory : ChildAnswers → ProgramConfig → List SysCall × Bool
setup_working_directory a c = elim c.directory [
  | none ↦ ([], true)
  | some path ↦ (chdirs path ∷ [], a.chdir_ok)
]

unfoldable pub setup_environment : ProgramConfig → List SysCall
setup_environment c =
    setenvs (codes "SUPERVISOR_ENABLED") (codes "1")
    ∷ setenvs (codes "SUPERVISOR_PROCESS_NAME") c.name
    ∷ setenvs (codes "SUPERVISOR_GROUP_NAME") c.name
    ∷ map (λ e. setenvs e.0 e.1) c.environment

-- Whether `verify_privilege_drop` returns.
unfoldable pub verify_privilege_drop : ChildAnswers → ℕ → ℕ → Bool
verify_privilege_drop a uid gid =
    (a.real_uid == uid && a.effective_uid == uid) && (a.real_gid == gid && a.effective_gid == gid)

-- From the account on: each call only if the one before it succeeded.
unfoldable pub become : ChildAnswers → Account → List SysCall × Bool
unfolding verify_privilege_drop
become a w =
    if not a.initgroups_ok
    then (initgroups w.gid ∷ [], false)
    else if not a.setgid_ok
    then (initgroups w.gid ∷ setgids w.gid ∷ [], false)
    else if not a.setuid_ok
    then (initgroups w.gid ∷ setgids w.gid ∷ setuids w.uid ∷ [], false)
    else (
      initgroups w.gid ∷ setgids w.gid ∷ setuids w.uid ∷ [],
      verify_privilege_drop a w.uid w.gid,
    )

abbrev pub is_root_name : Bytes → Bool
is_root_name user = bytes_eq user [] || bytes_eq user (codes "root")

unfoldable pub switch_user : ChildAnswers → ProgramConfig → List SysCall × Bool
unfolding become
switch_user a c =
    if is_root_name c.user
    then ([], true)
    else if not (a.uid == 0)
    then ([], true)
    else elim a.account [ none ↦ ([], false) | some w ↦ become a w ]

abbrev umask_calls : Option ℕ → List SysCall
umask_calls none = []
umask_calls (some n) = umasks n ∷ []

-- `execvp`, and behind it the `_exit(127)` of `spawn_`, which is reached if it fails.
unfoldable pub exec_calls : ProgramConfig → List SysCall
exec_calls c = execs (parse_command c.command) ∷ exits 127 ∷ []

unfoldable pub setup_child_process : ChildAnswers → ProgramConfig → List SysCall
setup_child_process a c =
    let (chdir_calls, moved) = setup_working_directory a c in
    let (user_calls, switched) = switch_user a c in
    resets_signals
    ∷ (close_inherited_fds a.fd_limit
        ++ (chdir_calls
            ++ (if not moved
                then exits 126 ∷ []
                else setup_environment c
                  ++ (umask_calls c.umask
                      ++ (user_calls ++ (if not switched then exits 125 ∷ [] else exec_calls c))))))

-- A program is executed.
unfoldable pub has_exec : List SysCall → Bool
has_exec [] = false
has_exec (execs _ ∷ r) = true
has_exec (_ ∷ r) = has_exec r

-- The process runs as this account.
pub record RunsAs (a : ChildAnswers) (w : Account) : Type 0 where
  pub real_uid_is : a.real_uid ≡ w.uid
  pub effective_uid_is : a.effective_uid ≡ w.uid
  pub real_gid_is : a.real_gid ≡ w.gid
  pub effective_gid_is : a.effective_gid ≡ w.gid

has_exec-append : (xs ys : List SysCall) → has_exec xs ≡ false → has_exec (xs ++ ys) ≡ has_exec ys
unfolding has_exec
has_exec-append [] ys h = refl
has_exec-append (execs l ∷ r) ys h = cc
has_exec-append (x ∷ r) ys h = has_exec-append r ys h

has_exec-close_from : (fd n : ℕ) → has_exec (close_from fd n) ≡ false
unfolding has_exec close_from
has_exec-close_from fd zero = refl
has_exec-close_from fd (suc n) = has_exec-close_from (fd + 1) n

has_exec-close_inherited_fds : (l : FdLimit) → has_exec (close_inherited_fds l) ≡ false
unfolding close_inherited_fds has_exec
has_exec-close_inherited_fds unknown = refl
has_exec-close_inherited_fds unlimited = has_exec-close_from 3 (1024 - 3)
has_exec-close_inherited_fds (limited n) = has_exec-close_from 3 (n - 3)

has_exec-setenvs : (l : List (Bytes × Bytes)) → has_exec (map (λ e. setenvs e.0 e.1) l) ≡ false
unfolding has_exec
has_exec-setenvs [] = refl
has_exec-setenvs (e ∷ r) = has_exec-setenvs r

-- Either no switch is due, or the switch is verified.
abbrev pub MayExec : ChildAnswers → ProgramConfig → Type 0
MayExec a c =
    (is_root_name c.user ≡ true)
    ⊎ ((a.uid ≢ 0) ⊎ ((w : Account) × (a.account ≡ some w) × RunsAs a w))

true_ne_false : true ≡ false → ⊥
true_ne_false e = cc

become-RunsAs : (a : ChildAnswers) (w : Account) → (become a w).1 ≡ true → RunsAs a w
unfolding become
become-RunsAs a w h = ground arith

account_switched :
    (a : ChildAnswers) (c : ProgramConfig)
    → is_root_name c.user ≡ false
    → (a.uid == 0) ≡ true
    → (switch_user a c).1 ≡ true
    → (w : Account) × (a.account ≡ some w) × RunsAs a w
unfolding switch_user
account_switched a c other privileged h = elim (Option-cases a.account) [
  | inl e ↦
      let failed : (switch_user a c).1 ≡ false = ground arith in
      absurd (true_ne_false (sym h ∙ failed))
  | inr (w, e) ↦
      let done : (switch_user a c).1 ≡ (become a w).1 = ground arith in
      (w, e, become-RunsAs a w (sym done ∙ h))
]

switch_user-MayExec :
    (a : ChildAnswers) (c : ProgramConfig) → (switch_user a c).1 ≡ true → MayExec a c
unfolding switch_user
switch_user-MayExec a c h = elim (Bool-cases (is_root_name c.user)) [
  | inl root ↦ inl root
  | inr other ↦ inr (elim (Bool-cases (a.uid == 0)) [
    | inr unprivileged ↦ inl (ground arith)
    | inl privileged ↦ inr (account_switched a c other privileged h)
  ])
]

switch_user-has_exec : (a : ChildAnswers) (c : ProgramConfig) → has_exec (switch_user a c).0 ≡ false
unfolding switch_user has_exec
switch_user-has_exec a c = ground arith

umask-has_exec : (u : Option ℕ) (ys : List SysCall) → has_exec (umask_calls u ++ ys) ≡ has_exec ys
unfolding has_exec
umask-has_exec none ys = refl
umask-has_exec (some n) ys = refl

last-has_exec :
    (c : ProgramConfig) (switched : Bool)
    → has_exec (if not switched then exits 125 ∷ [] else exec_calls c) ≡ switched
unfolding has_exec exec_calls
last-has_exec c true = refl
last-has_exec c false = refl

tail-has_exec :
    (a : ChildAnswers) (c : ProgramConfig)
    → has_exec (
        setup_environment c
        ++ (umask_calls c.umask
            ++ ((switch_user a c).0
                ++ (if not (switch_user a c).1 then exits 125 ∷ [] else exec_calls c))))
      ≡ (switch_user a c).1
unfolding setup_environment has_exec exec_calls
tail-has_exec a c =
    let last = if not (switch_user a c).1 then exits 125 ∷ [] else exec_calls c in
    has_exec-append (map (λ e. setenvs e.0 e.1) c.environment)
      (umask_calls c.umask ++ ((switch_user a c).0 ++ last)) (has_exec-setenvs c.environment)
    ∙ umask-has_exec c.umask ((switch_user a c).0 ++ last)
    ∙ has_exec-append (switch_user a c).0 last (switch_user-has_exec a c)
    ∙ last-has_exec c (switch_user a c).1

directory-has_exec :
    (a : ChildAnswers) (c : ProgramConfig) → has_exec (setup_working_directory a c).0 ≡ false
unfolding setup_working_directory has_exec
directory-has_exec a c = ground arith

moved-has_exec :
    (moved : Bool) (tail : List SysCall)
    → has_exec (if not moved then exits 126 ∷ [] else tail)
      ≡ (if moved then has_exec tail else false)
unfolding has_exec
moved-has_exec true tail = refl
moved-has_exec false tail = refl

setup_child_process-has_exec :
    (a : ChildAnswers) (c : ProgramConfig)
    → has_exec (setup_child_process a c)
      ≡ (if (setup_working_directory a c).1 then (switch_user a c).1 else false)
unfolding setup_child_process has_exec
setup_child_process-has_exec a c =
    let tail =
      setup_environment c
      ++ (umask_calls c.umask
          ++ ((switch_user a c).0
              ++ (if not (switch_user a c).1 then exits 125 ∷ [] else exec_calls c))) in
    let moved = if not (setup_working_directory a c).1 then exits 126 ∷ [] else tail in
    has_exec-append (resets_signals ∷ close_inherited_fds a.fd_limit)
      ((setup_working_directory a c).0 ++ moved) (has_exec-close_inherited_fds a.fd_limit)
    ∙ has_exec-append (setup_working_directory a c).0 moved (directory-has_exec a c)
    ∙ moved-has_exec (setup_working_directory a c).1 tail
    ∙ ap (λ b. if (setup_working_directory a c).1 then b else false) (tail-has_exec a c)

-- A program is executed exactly where the change of directory and the switch of the user succeed;
-- and then, if the configured user is neither root nor empty and the supervisor runs as root, the
-- child's real and effective ids are those of that user's account. In the other cases no switch is
-- due, and nothing is said of the ids.
pub setup_child_process-MayExec :
    (a : ChildAnswers) (c : ProgramConfig)
    → (has_exec (setup_child_process a c)
        ≡ (if (setup_working_directory a c).1 then (switch_user a c).1 else false))
      × (has_exec (setup_child_process a c) ≡ true → MayExec a c)
setup_child_process-MayExec a c =
    let runs = setup_child_process-has_exec a c in
    (runs, λ h. switch_user-MayExec a c (ground (arith, runs)))
