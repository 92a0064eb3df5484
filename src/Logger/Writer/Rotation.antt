-- ===== src/Logger/Writer/Rotation.antt =====
-- log_writer.cpp, `rotateNL_`: what happens to the numbered backups.
use supervisorcpp.Prelude.{
  ℕ, zero, suc, ◌-◌, [], Bool, true, Option, none, some, inl, inr, ◌≡◌, refl, ◌∙◌, arith, ltb, ◌==◌,
  if◌then◌else◌, Option-cases, Bytes, pos, pos_part, leb_ℤ,
}
use supervisorcpp.Logger.Writer.{
  Disk, Io, LogWriter, rename_backup, rename_backups, remove_oldest, rename_logfile, rotate_files,
  rotate_nl, open_nl,
}

-- No call of the file system fails.
pub record IsFaultless (io : Io) : Type 0 where
  pub opens : io.open_ok ≡ true
  pub sizes : io.size_ok ≡ true
  pub writes : io.write_ok ≡ true
  pub removes : io.remove_ok ≡ true
  pub renames : (i : ℕ) → io.rename_ok i ≡ true

-- One round of the loop, where the place above is free.
rename_backup_shift :
    (ok : ℕ → Bool) (i : ℕ) (d : Disk)
    → ok i ≡ true
    → d.backup (suc i) ≡ none
    → ((rename_backup ok i d).1 ≡ true)
      × ((rename_backup ok i d).0.logfile ≡ d.logfile)
      × ((j : ℕ)
          → (rename_backup ok i d).0.backup j
            ≡ (if j == i then none else if j == suc i then d.backup i else d.backup j))
unfolding rename_backup
rename_backup_shift ok i d good free = elim (Option-cases (d.backup i)) [
  | inl e ↦ rw (e, rename_backup) (refl, refl, λ j. ground (arith, e, free))
  | inr (b, e) ↦ rw (e, rename_backup) (rw good (refl, refl, λ j. ground (arith, e)))
]

-- What the loop from `k` down to 1 makes of the backups.
abbrev shifted : ℕ → (ℕ → Option Bytes) → ℕ → Option Bytes
shifted k b j =
    if ltb j 1 then b j else if ltb (suc k) j then b j else if j == 1 then none else b (j - 1)

-- The loop moves each `logfile.i` with `1 ≤ i ≤ k` to `logfile.(i + 1)`, and touches no other.
rename_backups_shift :
    (ok : ℕ → Bool) (k : ℕ) (d : Disk)
    → ((i : ℕ) → ok i ≡ true)
    → d.backup (suc k) ≡ none
    → ((rename_backups ok k d).1 ≡ true)
      × ((rename_backups ok k d).0.logfile ≡ d.logfile)
      × ((j : ℕ) → (rename_backups ok k d).0.backup j ≡ shifted k d.backup j)
unfolding rename_backups
rename_backups_shift ok zero d all free = (refl, refl, λ j. ground (arith, free))
rename_backups_shift ok (suc k) d all free =
    let d' = (rename_backup ok (suc k) d).0 in
    let first = rename_backup_shift ok (suc k) d (all (suc k)) free in
    let rest = rename_backups_shift ok k d' all (ground (arith, first.2 (suc k))) in
    rw (first.0, rename_backups)
      (rest.0, rest.1 ∙ first.1, λ j. ground (arith, rest.2 j, first.2 j, first.2 (j - 1)))

remove_oldest_lem :
    (io : Io) (m : ℕ) (d : Disk)
    → io.remove_ok ≡ true
    → ((remove_oldest io (suc m) d).1 ≡ true)
      × ((remove_oldest io (suc m) d).0.logfile ≡ d.logfile)
      × ((j : ℕ)
          → (remove_oldest io (suc m) d).0.backup j ≡ (if j == suc m then none else d.backup j))
unfolding remove_oldest
remove_oldest_lem io m d good = elim (Option-cases (d.backup (suc m))) [
  | inl e ↦ rw (e, remove_oldest) (refl, refl, λ j. ground (arith, e))
  | inr (b, e) ↦ rw (e, remove_oldest) (rw good (refl, refl, λ j. refl))
]

rename_logfile_lem :
    (io : Io) (d : Disk)
    → io.rename_ok 0 ≡ true
    → ((rename_logfile io d).logfile ≡ none)
      × ((j : ℕ)
          → (rename_logfile io d).backup j
            ≡ elim d.logfile [ none ↦ d.backup j | some b ↦ if j == 1 then some b else d.backup j ])
unfolding rename_logfile
rename_logfile_lem io d good = elim (Option-cases d.logfile) [
  | inl e ↦ rw (e, rename_logfile) (e, λ j. refl)
  | inr (b, e) ↦ rw (e, rename_logfile) (rw good (refl, λ j. refl))
]

-- With `m + 1` backups to keep, every file moves up one number and the oldest is dropped.
abbrev pub rotated : ℕ → Disk → ℕ → Option Bytes
rotated m d j =
    if ltb j 1
    then d.backup j
    else if ltb (suc m) j
    then d.backup j
    else if j == 1
    then d.logfile
    else d.backup (j - 1)

rotate_files_steps :
    (io : Io) (m : ℕ) (d : Disk)
    → (remove_oldest io (suc m) d).1 ≡ true
    → (rename_backups io.rename_ok m (remove_oldest io (suc m) d).0).1 ≡ true
    → rotate_files io (suc m) d
      ≡ rename_logfile io (rename_backups io.rename_ok m (remove_oldest io (suc m) d).0).0
unfolding rotate_files
rotate_files_steps io m d removed renamed =
    let less : suc m - 1 ≡ m = omega arith in
    rw (removed, rotate_files) (rw less (rw renamed (rw less)))

rotate_files_shift :
    (io : Io) (m : ℕ) (d : Disk)
    → IsFaultless io
    → ((rotate_files io (suc m) d).logfile ≡ none)
      × ((j : ℕ) → (rotate_files io (suc m) d).backup j ≡ rotated m d j)
rotate_files_shift io m d h =
    let d₁ = (remove_oldest io (suc m) d).0 in
    let removed = remove_oldest_lem io m d h.removes in
    let renamed =
      rename_backups_shift io.rename_ok m d₁ h.renames (ground (arith, removed.2 (suc m))) in
    let d₂ = (rename_backups io.rename_ok m d₁).0 in
    let moved = rename_logfile_lem io d₂ (h.renames 0) in
    rw (rotate_files_steps io m d removed.0 renamed.0) (
      moved.0,
      λ j.
          ground
            (arith, moved.1 j, renamed.1, removed.1, renamed.2 j, removed.2 j, removed.2 (j - 1)),
    )

-- With `backups = m + 1` and no failing call, a rotation moves `logfile` to `logfile.1` and each
-- `logfile.i` to `logfile.(i + 1)`, drops `logfile.(m + 1)`, leaves the files beyond alone, and
-- reopens an empty log.
pub rotate_nl-rotated :
    (io : Io) (w : LogWriter) (m : ℕ)
    → IsFaultless io
    → w.backups ≡ pos (suc m)
    → ((rotate_nl io w).is_open ≡ true)
      × ((rotate_nl io w).current_size ≡ 0)
      × ((rotate_nl io w).disk.logfile ≡ some [])
      × ((j : ℕ) → (rotate_nl io w).disk.backup j ≡ rotated m w.disk j)
unfolding rotate_nl open_nl
rotate_nl-rotated io w m h keep =
    let files = rotate_files_shift io m w.disk h in
    rw (keep, h.opens, h.sizes, files.0) (refl, refl, refl, files.1)

-- With no backups to keep (`backups <= 0`) and no failing call, a rotation still keeps the old log
-- as `logfile.1`, over what stood there, and touches no other backup.
rotate_nl-no_backups :
    (io : Io) (w : LogWriter) (old : Bytes)
    → IsFaultless io
    → leb_ℤ w.backups (pos 0) ≡ true
    → w.disk.logfile ≡ some old
    → ((rotate_nl io w).disk.logfile ≡ some [])
      × ((j : ℕ) → (rotate_nl io w).disk.backup j ≡ (if j == 1 then some old else w.disk.backup j))
unfolding rotate_nl open_nl rotate_files
rotate_nl-no_backups io w old h none_kept here =
    let zero_lem : pos_part w.backups ≡ 0 = ground arith in
    let moved = rename_logfile_lem io w.disk (h.renames 0) in
    rw (h.opens, zero_lem, moved.0, rotate_nl) (refl, λ j. moved.1 j ∙ rw here refl)

-- The same for every number of backups: a fresh log, with the old one behind it.
pub rotate_nl-fresh :
    (io : Io) (w : LogWriter) (old : Bytes)
    → IsFaultless io
    → w.disk.logfile ≡ some old
    → ((rotate_nl io w).is_open ≡ true)
      × ((rotate_nl io w).current_size ≡ 0)
      × ((rotate_nl io w).disk.logfile ≡ some [])
      × ((rotate_nl io w).disk.backup 1 ≡ some old)
unfolding rotate_nl open_nl rotate_files
rotate_nl-fresh io w old h here = go (pos_part w.backups) refl
  where
    go :
        (n : ℕ)
        → pos_part w.backups ≡ n
        → ((rotate_nl io w).is_open ≡ true)
          × ((rotate_nl io w).current_size ≡ 0)
          × ((rotate_nl io w).disk.logfile ≡ some [])
          × ((rotate_nl io w).disk.backup 1 ≡ some old)
    go zero e =
        let moved = rename_logfile_lem io w.disk (h.renames 0) in
        rw (h.opens, h.sizes, e, moved.0, rotate_nl) (refl, refl, refl, moved.1 1 ∙ rw here refl)
    go (suc m) e =
        let files = rotate_files_shift io m w.disk h in
        rw (h.opens, h.sizes, e, files.0, rotate_nl)
          (refl, refl, refl, files.1 1 ∙ ground (arith, here))
