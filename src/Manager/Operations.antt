-- ===== src/Manager/Operations.antt =====
-- process_manager.cpp: the invariant of Process/Invariant over the whole table, in the operations.
use supervisorcpp.Prelude.{
  ℕ, List, [], ◌∷◌, some, ◌≡◌, ◌≢◌, arith, inl, inr, Bool-cases, Option-cases, Bytes, bytes_eq_refl,
}
use supervisorcpp.Process.Types.{Process, ProgramConfig, has_pid, stopping, create_process}
use supervisorcpp.Process.Life.{stop}
use supervisorcpp.Process.Invariant.{
  IsConsistent, create-IsConsistent, start-IsConsistent, stop-IsConsistent, kill-IsConsistent,
}
use supervisorcpp.Manager.Table.{Manager, Os, find}
use supervisorcpp.Manager.Loop.{has_running_processes}
use supervisorcpp.Manager.Control.{
  LogFiles, add_process, stop_live, force_kill, stop_all, start_process, stop_process,
  remove_process, is_alive, stop_wait,
}
use supervisorcpp.Manager.Sync.{
  sync_program, sync_programs, remove_stale, sync_processes, names_program, config_eq,
}
use supervisorcpp.Manager.Consistency.{
  AllConsistent, AllParent, AllConsistent-find, AllConsistent-set, AllConsistent-replace,
  AllConsistent-erase, AllConsistent-sweep, AllConsistent-reap_until,
}
use supervisorcpp.Manager.Lookup.{find-set}

force_kill-IsConsistent :
    (os : Os) (n : ℕ) (p : Process) → IsConsistent p → IsConsistent (force_kill os n p).0
unfolding force_kill
force_kill-IsConsistent os n p h = kill-IsConsistent (os.now n) p h

stop_live-IsConsistent :
    (os : Os) (n : ℕ) (p : Process) → IsConsistent p → IsConsistent (stop_live os n p).0
unfolding stop_live
stop_live-IsConsistent os n p h = elim (Bool-cases (has_pid p)) [
  | inl live ↦ rw live (stop-IsConsistent (os.kill_ok n) (os.now n) p h)
  | inr down ↦ rw down h
]

module _ (os : Os) (parent : AllParent os) where
  pub AllConsistent-stop_all :
      (m : Manager) → AllConsistent m.process_map → AllConsistent (stop_all os m).process_map
  unfolding stop_all
  AllConsistent-stop_all m g = elim (Bool-cases (has_running_processes m.process_map)) [
    | inr idle ↦ rw (idle, stop_all) g
    | inl busy ↦
        rw (busy, stop_all)
          (AllConsistent-sweep (force_kill os) _ _ (λ n p h. force_kill-IsConsistent os n p h)
            (AllConsistent-reap_until os parent _ has_running_processes _ (
              AllConsistent-sweep (stop_live os) _ _ (λ n p h. stop_live-IsConsistent os n p h) g)))
  ]

  pub AllConsistent-start_process :
      (name : Bytes) (m : Manager)
      → ((p : Process) → find name m.process_map ≡ some p → p.state ≢ stopping)
      → AllConsistent m.process_map
      → AllConsistent (start_process os name m).0.process_map
  unfolding start_process
  AllConsistent-start_process name m down g = elim (Option-cases (find name m.process_map)) [
    | inl e ↦ rw (e, start_process) g
    | inr (p, e) ↦
        rw (e, start_process)
          (AllConsistent-replace name _ m.process_map
            (start-IsConsistent (os.spawns m.asked) (os.now m.asked) p (parent m.asked) (down p e)
              (AllConsistent-find name m.process_map p g e))
            g)
  ]

  pub AllConsistent-stop_process :
      (name : Bytes) (m : Manager)
      → AllConsistent m.process_map
      → AllConsistent (stop_process os name m).0.process_map
  unfolding stop_process
  AllConsistent-stop_process name m g = elim (Option-cases (find name m.process_map)) [
    | inl e ↦ rw (e, stop_process) g
    | inr (p, e) ↦
        let r = stop (os.kill_ok m.asked) (os.now m.asked) p in
        let g' =
          AllConsistent-replace name r.0 m.process_map
            (stop-IsConsistent (os.kill_ok m.asked) (os.now m.asked) p
              (AllConsistent-find name m.process_map p g e))
            g in
        rw (e, stop_process)
          (elim (Bool-cases r.2) [
            | inl sent ↦
                rw sent (AllConsistent-reap_until os parent (stop_wait p) (is_alive name) _ g')
            | inr failed ↦ rw failed g'
          ])
  ]

  pub AllConsistent-remove_process :
      (name : Bytes) (m : Manager)
      → AllConsistent m.process_map
      → AllConsistent (remove_process os name m).0.process_map
  unfolding remove_process
  AllConsistent-remove_process name m g = elim (Option-cases (find name m.process_map)) [
    | inl e ↦ rw (e, remove_process) g
    | inr (p, e) ↦
        rw (e, remove_process)
          (elim (Bool-cases (has_pid p)) [
            | inl live ↦ rw live (AllConsistent-erase name _ (AllConsistent-stop_process name m g))
            | inr down ↦ rw down (AllConsistent-erase name _ g)
          ])
  ]

  AllConsistent-add_process :
      (files : LogFiles) (c : ProgramConfig) (m : Manager)
      → AllConsistent m.process_map
      → AllConsistent (add_process os files c m).process_map
  unfolding add_process
  AllConsistent-add_process files c m g =
      AllConsistent-set c.name _ m.process_map
        (create-IsConsistent files.io files.stdout_disk files.stderr_disk (os.now m.asked) c) g

  -- A process that was just added is not being stopped.
  added-not_stopping :
      (files : LogFiles) (c : ProgramConfig) (m : Manager) (p : Process)
      → find c.name (add_process os files c m).process_map ≡ some p
      → p.state ≢ stopping
  unfolding add_process create_process
  added-not_stopping files c m p e s =
      let fresh = create_process files.io files.stdout_disk files.stderr_disk (os.now m.asked) c in
      ground (arith, find-set c.name c.name fresh m.process_map, bytes_eq_refl c.name)

  AllConsistent-add_start :
      (files : LogFiles) (c : ProgramConfig) (m : Manager)
      → AllConsistent m.process_map
      → AllConsistent (start_process os c.name (add_process os files c m)).0.process_map
  AllConsistent-add_start files c m g =
      AllConsistent-start_process c.name (add_process os files c m) (added-not_stopping files c m)
        (AllConsistent-add_process files c m g)

  AllConsistent-remove_stale :
      (programs : List ProgramConfig) (names : List Bytes) (m : Manager)
      → AllConsistent m.process_map
      → AllConsistent (remove_stale os programs names m).process_map
  unfolding remove_stale
  AllConsistent-remove_stale programs [] m g = g
  AllConsistent-remove_stale programs (name ∷ r) m g =
      elim (Bool-cases (names_program name programs)) [
        | inl kept ↦ rw (kept, remove_stale) (AllConsistent-remove_stale programs r m g)
        | inr stale ↦
            rw (stale, remove_stale)
              (AllConsistent-remove_stale programs r (remove_process os name m).0
                (AllConsistent-remove_process name m g))
      ]

  AllConsistent-sync_program :
      (files : ℕ → LogFiles) (c : ProgramConfig) (m : Manager)
      → AllConsistent m.process_map
      → AllConsistent (sync_program os files c m).process_map
  unfolding sync_program
  AllConsistent-sync_program files c m g = elim (Option-cases (find c.name m.process_map)) [
    | inl e ↦ rw (e, sync_program) (AllConsistent-add_start (files m.asked) c m g)
    | inr (p, e) ↦
        rw (e, sync_program)
          (elim (Bool-cases (config_eq p.config c)) [
            | inl same ↦ rw same g
            | inr changed ↦ rw changed (
                AllConsistent-add_start _ c (remove_process os c.name m).0
                  (AllConsistent-remove_process c.name m g))
          ])
  ]

  AllConsistent-sync_programs :
      (files : ℕ → LogFiles) (programs : List ProgramConfig) (m : Manager)
      → AllConsistent m.process_map
      → AllConsistent (sync_programs os files programs m).process_map
  unfolding sync_programs
  AllConsistent-sync_programs files [] m g = g
  AllConsistent-sync_programs files (c ∷ r) m g =
      AllConsistent-sync_programs files r (sync_program os files c m)
        (AllConsistent-sync_program files c m g)

  -- A reload of a table of consistent processes keeps every process consistent, whatever children
  -- exit and however the spawns, the signals and the waits in it turn out, provided that `fork`
  -- never returns 0 in the parent.
  pub sync_processes-AllConsistent :
      (files : ℕ → LogFiles) (programs : List ProgramConfig) (m : Manager)
      → AllConsistent m.process_map
      → AllConsistent (sync_processes os files programs m).process_map
  unfolding sync_processes
  sync_processes-AllConsistent files programs m g =
      AllConsistent-sync_programs files programs _ (AllConsistent-remove_stale programs _ m g)
