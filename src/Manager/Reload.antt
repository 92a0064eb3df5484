-- ===== src/Manager/Reload.antt =====
-- process_manager.cpp, `sync_processes`: the table that a reload leaves.
use supervisorcpp.Prelude.{
  ℕ, Bool, true, false, not, ◌&&◌, ◌||◌, List, [], ◌∷◌, Option, none, some, if◌then◌else◌, ◌≡◌,
  refl, sym, ap, ◌∙◌, arith, inl, inr, Bool-cases, Option-cases, Bytes, bytes_eq, bytes_eq_iff,
}
use supervisorcpp.Process.Types.{Process, ProgramConfig, has_pid, create_process}
use supervisorcpp.Manager.Table.{Table, Manager, Os, find, erase, keys, IsMap}
use supervisorcpp.Manager.Lookup.{find-set, find-erase, set-IsMap, erase-IsMap}
use supervisorcpp.Manager.Control.{LogFiles, add_process, start_process, remove_process}
use supervisorcpp.Manager.Sync.{
  names_program, remove_stale, sync_program, sync_programs, sync_processes, config_eq,
  config_eq_iff,
}
use supervisorcpp.Manager.Shape.{
  config_of, config_of_process, shape, shape-config_of, shape-IsMap, start_process-shape,
  stop_process-shape,
}

-- The last program of this name in the new configuration.
unfoldable pub last_named : Bytes → List ProgramConfig → Option ProgramConfig
last_named name [] = none
last_named name (c ∷ r) = elim (last_named name r) [
  | some d ↦ some d
  | none ↦ if bytes_eq c.name name then some c else none
]

-- What an operation on one name does to the table.
abbrev pub Sets : Bytes → Option ProgramConfig → Table → Table → Type 0
Sets name c t u =
    ((j : Bytes) → config_of j u ≡ (if bytes_eq name j then c else config_of j t)) × IsMap u

-- An operation before that keeps the shape does not show.
Sets-shape :
    (name : Bytes) (c : Option ProgramConfig) (t u v : Table)
    → shape u ≡ shape t
    → Sets name c u v
    → Sets name c t v
Sets-shape name c t u v e h =
    (λ j. h.0 j ∙ ap (λ d. if bytes_eq name j then c else d) (shape-config_of j u t e), h.1)

erase-Sets : (name : Bytes) (t : Table) → IsMap t → Sets name none t (erase name t)
erase-Sets name t h = (λ j. rw (find-erase name j t h) (ground arith), erase-IsMap name t h)

pub add_process-Sets :
    (os : Os) (files : LogFiles) (c : ProgramConfig) (m : Manager)
    → IsMap m.process_map
    → Sets c.name (some c) m.process_map (add_process os files c m).process_map
unfolding add_process create_process
add_process-Sets os files c m h =
    (λ j. rw (find-set c.name j _ m.process_map) (ground arith), set-IsMap c.name _ m.process_map h)

remove_process-Sets :
    (os : Os) (name : Bytes) (m : Manager)
    → IsMap m.process_map
    → Sets name none m.process_map (remove_process os name m).0.process_map
unfolding remove_process
remove_process-Sets os name m h = elim (Option-cases (find name m.process_map)) [
  | inl e ↦ rw (e, remove_process) (λ j. ground (arith, bytes_eq_iff name j), h)
  | inr (p, e) ↦
      rw (e, remove_process)
        (elim (Bool-cases (has_pid p)) [
          | inl live ↦ rw live (
              Sets-shape name none _ _ _ (stop_process-shape os name m)
                (erase-Sets name _ (shape-IsMap _ _ (stop_process-shape os name m) h)))
          | inr down ↦ rw down (erase-Sets name m.process_map h)
        ])
]

add_start-Sets :
    (os : Os) (files : LogFiles) (c : ProgramConfig) (m : Manager)
    → IsMap m.process_map
    → Sets c.name
        (some c)
        m.process_map
        (start_process os c.name (add_process os files c m)).0.process_map
add_start-Sets os files c m h =
    let added = add_process-Sets os files c m h in
    let same = start_process-shape os c.name (add_process os files c m) in
    (
      λ j. shape-config_of j _ (add_process os files c m).process_map same ∙ added.0 j,
      shape-IsMap _ (add_process os files c m).process_map same added.1,
    )

sync_program-Sets :
    (os : Os) (files : ℕ → LogFiles) (c : ProgramConfig) (m : Manager)
    → IsMap m.process_map
    → Sets c.name (some c) m.process_map (sync_program os files c m).process_map
unfolding sync_program
sync_program-Sets os files c m h = elim (Option-cases (find c.name m.process_map)) [
  | inl e ↦ rw (e, sync_program) (add_start-Sets os (files m.asked) c m h)
  | inr (p, e) ↦
      rw (e, sync_program)
        (elim (Bool-cases (config_eq p.config c)) [
          | inl same ↦
              rw same
                (λ j. ground (arith, bytes_eq_iff c.name j, (config_eq_iff p.config c).0 same), h)
          | inr changed ↦
              let removed = (remove_process os c.name m).0 in
              let gone = remove_process-Sets os c.name m h in
              let back = add_start-Sets os (files removed.asked) c removed gone.1 in
              rw changed (λ j. back.0 j ∙ ground (arith, gone.0 j), back.1)
        ])
]

-- The programs are put in one after the other, so the last of a name stays.
abbrev pub put_in : Option ProgramConfig → Option ProgramConfig → Option ProgramConfig
put_in none old = old
put_in (some c) old = some c

pub sync_programs-config_of :
    (os : Os) (files : ℕ → LogFiles) (l : List ProgramConfig) (m : Manager)
    → IsMap m.process_map
    → ((j : Bytes)
        → config_of j (sync_programs os files l m).process_map
          ≡ put_in (last_named j l) (config_of j m.process_map))
      × IsMap (sync_programs os files l m).process_map
unfolding sync_programs last_named
sync_programs-config_of os files [] m h = (λ j. refl, h)
sync_programs-config_of os files (c ∷ r) m h =
    let one = sync_program-Sets os files c m h in
    let rest = sync_programs-config_of os files r (sync_program os files c m) one.1 in
    (λ j. rest.0 j ∙ ground (arith, one.0 j, Option-cases (last_named j r)), rest.1)

unfoldable is_in : Bytes → List Bytes → Bool
is_in name [] = false
is_in name (k ∷ r) = bytes_eq k name || is_in name r

remove_stale-config_of :
    (os : Os) (programs : List ProgramConfig) (names : List Bytes) (m : Manager)
    → IsMap m.process_map
    → ((j : Bytes)
        → config_of j (remove_stale os programs names m).process_map ≡ (
            if is_in j names && not (names_program j programs)
            then none
            else config_of j m.process_map))
      × IsMap (remove_stale os programs names m).process_map
unfolding remove_stale is_in
remove_stale-config_of os programs [] m h = (λ j. refl, h)
remove_stale-config_of os programs (k ∷ r) m h = elim (Bool-cases (names_program k programs)) [
  | inl kept ↦
      let rest = remove_stale-config_of os programs r m h in
      rw (kept, remove_stale) (λ j. rest.0 j ∙ ground (arith, bytes_eq_iff k j), rest.1)
  | inr stale ↦
      let gone = remove_process-Sets os k m h in
      let rest = remove_stale-config_of os programs r (remove_process os k m).0 gone.1 in
      rw (stale, remove_stale) (λ j. rest.0 j ∙ ground (arith, bytes_eq_iff k j, gone.0 j), rest.1)
]

-- Every name of the table is among its keys.
keys-config_of : (j : Bytes) (t : Table) → is_in j (keys t) ≡ false → config_of j t ≡ none
unfolding find is_in
keys-config_of j [] h = refl
keys-config_of j ((k, p) ∷ r) h = ground (arith, keys-config_of j r)

last_named-names_program :
    (j : Bytes) (l : List ProgramConfig) → last_named j l ≡ none → names_program j l ≡ false
unfolding names_program last_named
last_named-names_program j [] h = refl
last_named-names_program j (c ∷ r) h = ground (arith, last_named-names_program j r)

-- After a reload of a table whose keys ascend, it has exactly the names of the new programs, each with the configuration
-- of the last program of that name, and its keys ascend.
pub sync_processes-config_of :
    (os : Os) (files : ℕ → LogFiles) (programs : List ProgramConfig) (m : Manager)
    → IsMap m.process_map
    → ((j : Bytes)
        → config_of j (sync_processes os files programs m).process_map ≡ last_named j programs)
      × IsMap (sync_processes os files programs m).process_map
unfolding sync_processes
sync_processes-config_of os files programs m h =
    let first = remove_stale-config_of os programs (keys m.process_map) m h in
    let rest =
      sync_programs-config_of os files programs (remove_stale os programs (keys m.process_map) m)
        first.1 in
    (
      λ j.
          rest.0 j
          ∙ ground (
            arith,
            first.0 j,
            last_named-names_program j programs,
            keys-config_of j m.process_map,
            Option-cases (last_named j programs),
          ),
      rest.1,
    )

-- Every name of the list is a program's.
abbrev pub Named : List ProgramConfig → List Bytes → Type 0
Named programs [] = Unit
Named programs (k ∷ r) = (names_program k programs ≡ true) × Named programs r

-- Every program is in the table with this configuration.
abbrev pub Present : Table → List ProgramConfig → Type 0
Present t [] = Unit
Present t (c ∷ r) = (config_of c.name t ≡ some c) × Present t r

remove_stale-Named :
    (os : Os) (programs : List ProgramConfig) (names : List Bytes) (m : Manager)
    → Named programs names
    → remove_stale os programs names m ≡ m
unfolding remove_stale
remove_stale-Named os programs [] m h = refl
remove_stale-Named os programs (k ∷ r) m h =
    rw (h.0, remove_stale) (remove_stale-Named os programs r m h.1)

none_ne_some : {c : ProgramConfig} → none ≡ some c → ⊥
none_ne_some e = cc

some_eq : (c d : ProgramConfig) → some c ≡ some d → c ≡ d
some_eq c d e = cc

config_of-some :
    (name : Bytes) (c : ProgramConfig) (t : Table)
    → config_of name t ≡ some c
    → (p : Process) × (find name t ≡ some p) × (config_eq p.config c ≡ true)
config_of-some name c t h = elim (Option-cases (find name t)) [
  | inl e ↦ absurd (none_ne_some (sym (ap config_of_process e) ∙ h))
  | inr (p, e) ↦
      (p, e, (config_eq_iff p.config c).1 (some_eq p.config c (sym (ap config_of_process e) ∙ h)))
]

sync_programs-Present :
    (os : Os) (files : ℕ → LogFiles) (l : List ProgramConfig) (m : Manager)
    → Present m.process_map l
    → sync_programs os files l m ≡ m
unfolding sync_programs sync_program
sync_programs-Present os files [] m h = refl
sync_programs-Present os files (c ∷ r) m h =
    let (p, found, same) = config_of-some c.name c m.process_map h.0 in
    let kept : sync_program os files c m ≡ m = rw (found, sync_program) (rw same) in
    ap (sync_programs os files r) kept ∙ sync_programs-Present os files r m h.1

-- A reload that changes no program touches nothing: no process is stopped, started or signalled.
-- Every name of the table is a program's then, and every program is in the table as it is.
pub sync_processes_unchanged :
    (os : Os) (files : ℕ → LogFiles) (programs : List ProgramConfig) (m : Manager)
    → Named programs (keys m.process_map)
    → Present m.process_map programs
    → sync_processes os files programs m ≡ m
unfolding sync_processes
sync_processes_unchanged os files programs m named present =
    ap (sync_programs os files programs)
      (remove_stale-Named os programs (keys m.process_map) m named)
    ∙ sync_programs-Present os files programs m present
