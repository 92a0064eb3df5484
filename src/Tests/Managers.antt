-- ===== src/Tests/Managers.antt =====
-- The table of processes.
use supervisorcpp.Prelude.{ℕ, true, List, [], ◌∷◌, some, pos, codes, ◌≡◌, refl, Bytes, bytes_eq}
use supervisorcpp.Process.Types.{ProgramConfig, running, create_process}
use supervisorcpp.Process.Life.{exited_with}
use supervisorcpp.Manager.Table.{Table, IsMap, find}
use supervisorcpp.Manager.Sync.{sync_processes, names_program}
use supervisorcpp.Manager.Consistency.{AllConsistent}
use supervisorcpp.Manager.Operations.{sync_processes-AllConsistent}
use supervisorcpp.Manager.Shape.{config_of}
use supervisorcpp.Manager.Reload.{last_named, sync_processes-config_of, sync_processes_unchanged}
use supervisorcpp.Manager.Table.{Os, Turn, reaps, ticks}
use supervisorcpp.Manager.Stopped.{Stopped}
use supervisorcpp.Tests.Data.{
  web, program, web_process, web_process-IsConsistent, web_live, web_manager, os, files, forks,
}

-- The new configuration has another program.
abbrev new_programs : List ProgramConfig
new_programs = program (codes "db") ∷ []

sync_processes-AllConsistent_example :
    AllConsistent
      (sync_processes os (λ n. files) new_programs (web_manager web_process)).process_map
sync_processes-AllConsistent_example =
    sync_processes-AllConsistent os (λ n. refl) (λ n. files) new_programs (web_manager web_process)
      (web_process-IsConsistent, tt)

sync_processes-config_of_example :
    ((j : Bytes)
      → config_of j
          (sync_processes os (λ n. files) new_programs (web_manager web_process)).process_map
        ≡ last_named j new_programs)
    × IsMap (sync_processes os (λ n. files) new_programs (web_manager web_process)).process_map
sync_processes-config_of_example =
    sync_processes-config_of os (λ n. files) new_programs (web_manager web_process) (tt, tt)

web_named : names_program (codes "web") (web ∷ []) ≡ true
unfolding names_program bytes_eq
web_named = refl

web_present : config_of (codes "web") (web_manager web_process).process_map ≡ some web
unfolding find bytes_eq create_process
web_present = refl

sync_processes_unchanged_example :
    sync_processes os (λ n. files) (web ∷ []) (web_manager web_process) ≡ web_manager web_process
sync_processes_unchanged_example =
    sync_processes_unchanged os (λ n. files) (web ∷ []) (web_manager web_process) (web_named, tt)
      (web_present, tt)

abbrev live_table : Table
live_table = (web_manager (web_live running)).process_map

-- The environment: the timer fires, another child exits, and then the child that is waited for.
abbrev slow_os : Os
slow_os = record os {
  spawns = λ n. record forks { child = pos 43 };
  turns = λ n.
      (1, ticks)
      ∷ (2, reaps ((pos 9, exited_with 0) ∷ []))
      ∷ (3, reaps ((pos 42, exited_with 0) ∷ []))
      ∷ (4, ticks)
      ∷ [];
}

abbrev others : List (ℕ × Turn)
others = (1, ticks) ∷ (2, reaps ((pos 9, exited_with 0) ∷ [])) ∷ []
