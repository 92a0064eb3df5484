-- ===== src/Daemon/Accepted.antt =====
-- supervisord.cpp and config_parser.cpp together: the programs that the daemon runs.
use mathlib.Core.List.{Memᴰ}
use supervisorcpp.Prelude.{
  ℕ, Bool, if-either, List, [], ◌∷◌, some, Bytes, bytes_eq, All, ◌≡◌, refl, sym, ◌∙◌, inl, inr, ltb,
  Bool-cases, Option-cases, arith, subst,
}
use supervisorcpp.PropertyTree.{PropertyTree}
use supervisorcpp.Process.Types.{ProgramConfig}
use supervisorcpp.Logger.Writer.{is_empty}
use supervisorcpp.Util.Secure.{Checked, valid, refused}
use supervisorcpp.Config.Outside.{Outside}
use supervisorcpp.Config.Types.{Configuration}
use supervisorcpp.Config.Parser.{parse_file}
use supervisorcpp.Config.Parser.Accepted.{IsAccepted}
use supervisorcpp.Config.Parser.Returned.{parse_file-IsParsed}
use supervisorcpp.Manager.Table.{Os}
use supervisorcpp.Manager.Control.{LogFiles}
use supervisorcpp.Manager.Shape.{config_of}
use supervisorcpp.Manager.Reload.{last_named}
use supervisorcpp.Daemon.{
  Supervisord, create_supervisord, begin_run, on_shutdown_signal, rpc_shutdown, reload_config,
  is_restarting, parsed_file, to_option,
}
use supervisorcpp.Daemon.Calls.{AllowsCalls}
use supervisorcpp.Daemon.Run.{
  Occurrence, terminated, hung_up, turns_to_posted, takes, connects, occurs, event_loop,
}
use supervisorcpp.Daemon.Serving.{serve_connection-leads, event_loop-Matches}

-- What the file system answers to the reloads among the occurrences, by signal or by a call.
unfoldable pub asked : List Occurrence → List Outside
asked [] = []
asked (hung_up o ∷ l) = o ∷ asked l
asked (connects r o chunks ∷ l) = o ∷ asked l
asked (_ ∷ l) = asked l

-- The parser's promises hold of the program on one of these answers of the file system.
abbrev pub AcceptedOn : List Outside → ProgramConfig → Type 0
AcceptedOn s p = (o : Outside) × (Memᴰ o s × IsAccepted o p)

All-AcceptedOn :
    (s : List Outside) (o : Outside) (l : List ProgramConfig)
    → Memᴰ o s
    → All (IsAccepted o) l
    → All (AcceptedOn s) l
All-AcceptedOn s o [] m h = tt
All-AcceptedOn s o (p ∷ l) m (h, hs) = ((o, (m, h)), All-AcceptedOn s o l m hs)

to_option-valid :
    (m : Checked Configuration) (c : Configuration) → to_option m ≡ some c → m ≡ valid c
to_option-valid (valid d) c e = cc e
to_option-valid refused c e = absurd (cc e)

some_only : (q p : ProgramConfig) → some q ≡ some p → q ≡ p
some_only q p e = cc e

last_named-All :
    (P : ProgramConfig → Type 0) (j : Bytes) (l : List ProgramConfig) (p : ProgramConfig)
    → All P l
    → last_named j l ≡ some p
    → P p
unfolding last_named
last_named-All P j [] p h e = absurd (cc e)
last_named-All P j (q ∷ l) p (h, hs) e = elim (Option-cases (last_named j l)) [
  | inr (d, f) ↦ last_named-All P j l p hs (ground (arith, e, f))
  | inl f ↦ elim (Bool-cases (bytes_eq q.name j)) [
    | inl same ↦ subst P (some_only q p (ground (arith, e, f, same))) h
    | inr other ↦ absurd (ground (arith, e, f, other))
  ]
]

module _ (t : PropertyTree) (os : Os) (files : ℕ → LogFiles) (pid : ℕ) where
  module _ (s : List Outside) where
    abbrev Programs : Supervisord → Type 0
    Programs d = All (AcceptedOn s) d.config.programs

    parsed-AcceptedOn :
        (o : Outside) (file : Bytes) (c : Configuration)
        → Memᴰ o s
        → parse_file t o file ≡ valid c
        → All (AcceptedOn s) c.programs
    parsed-AcceptedOn o file c m e =
        All-AcceptedOn s o c.programs m (parse_file-IsParsed t o file c e).1.0.programs_accepted

    parsed_file-AcceptedOn :
        (o : Outside) (file : Bytes) (c : Configuration)
        → Memᴰ o s
        → parsed_file t o file ≡ some c
        → All (AcceptedOn s) c.programs
    unfolding parsed_file
    parsed_file-AcceptedOn o file c m e =
        parsed-AcceptedOn o file c m (to_option-valid (parse_file t o file) c e)

    reload_config-Programs :
        (o : Outside) (d : Supervisord)
        → Memᴰ o s
        → Programs d
        → Programs (reload_config (parsed_file t o) os files d)
    unfolding reload_config
    reload_config-Programs o d m h = elim (Bool-cases (is_empty d.config.config_file)) [
      | inl none_known ↦ rw none_known h
      | inr known ↦ elim (Bool-cases (is_restarting d.daemon_state)) [
        | inl busy ↦ rw (known, busy) h
        | inr free ↦ elim (Option-cases (parsed_file t o d.config.config_file)) [
          | inl e ↦ rw (known, free, e) h
          | inr (c, e) ↦ rw (known, free, e) (parsed_file-AcceptedOn o d.config.config_file c m e)
        ]
      ]
    ]

    Programs-AllowsCalls :
        (o : Outside) → Memᴰ o s → AllowsCalls t os files o (λ d e. Programs d → Programs e)
    unfolding begin_run
    Programs-AllowsCalls o m = record {
      same = λ d h. h;
      starts_all = λ d h. h;
      stops_all = λ d h. h;
      starts = λ name d h. h;
      stops = λ name d h. h;
      posts = λ d h. h;
      reloads = λ d h. reload_config-Programs o d m h;
    }

    occurs-Programs :
        (x : Occurrence) (d : Supervisord)
        → All (λ o. Memᴰ o s) (asked (x ∷ []))
        → Programs d
        → Programs (occurs t os files pid x d).0
    unfolding occurs asked on_shutdown_signal rpc_shutdown
    occurs-Programs terminated d m h = h
    occurs-Programs (hung_up o) d (m, _) h = reload_config-Programs o d m h
    occurs-Programs turns_to_posted d m h = if-either Programs (ltb 0 d.posted) _ _ h h
    occurs-Programs (takes turn) d m h = h
    occurs-Programs (connects r o chunks) d (m, _) h =
        serve_connection-leads t os files pid (λ d e. Programs d → Programs e) o
          (Programs-AllowsCalls o m) r chunks d h

    -- The answers to the first occurrence, and to the others.
    asked-split :
        (P : Outside → Type 0) (x : Occurrence) (l : List Occurrence)
        → All P (asked (x ∷ l))
        → All P (asked (x ∷ [])) × All P (asked l)
    unfolding asked
    asked-split P terminated l h = (tt, h)
    asked-split P (hung_up o) l h = ((h.0, tt), h.1)
    asked-split P turns_to_posted l h = (tt, h)
    asked-split P (takes turn) l h = (tt, h)
    asked-split P (connects r o chunks) l h = ((h.0, tt), h.1)

    event_loop-Programs :
        (l : List Occurrence) (d : Supervisord)
        → All (λ o. Memᴰ o s) (asked l)
        → Programs d
        → Programs (event_loop t os files pid l d).0
    unfolding event_loop
    event_loop-Programs [] d m h = h
    event_loop-Programs (x ∷ l) d m h =
        let (one, rest) = asked-split (λ o. Memᴰ o s) x l m in
        let leads = λ (y : Supervisord × Bool). Programs y.0 in
        let h' = occurs-Programs x d one h in
        if-either leads d.is_over _ _ h (
          if-either leads (occurs t os files pid x d).1 _ _
            (event_loop-Programs l (occurs t os files pid x d).0 rest h') h')

  All-mem : (o : Outside) (l s : List Outside) → All (λ x. Memᴰ x s) l → All (λ x. Memᴰ x (o ∷ s)) l
  All-mem o [] s h = tt
  All-mem o (x ∷ l) s (m, h) = (Memᴰ.tail m, All-mem o l s h)

  All-self : (l : List Outside) → All (λ x. Memᴰ x l) l
  All-self [] = tt
  All-self (x ∷ l) = (Memᴰ.head refl, All-mem x l l (All-self l))

  -- A daemon that started from a parsed file: whatever signals, reloads, timers, exits and requests
  -- its event loop sees, each process of its table has a configuration that the parser accepted on what
  -- the file system answered at the start, to one of the reloads by signal, or to one of the
  -- connections: a command that is, up to its first space, the absolute path of a regular file or a link
  -- that `stat` called executable, a known stop signal, a safe environment, and log files whose resolved
  -- paths begin with the text of an allowed directory's path.
  pub event_loop-config_of :
      (o : Outside) (file : Bytes) (config : Configuration) (l : List Occurrence) (j : Bytes)
      (p : ProgramConfig)
      → parse_file t o file ≡ valid config
      → (let d =
            (event_loop t os files pid l (begin_run os (create_supervisord os files config))).0 in
          config_of j d.process_manager.process_map ≡ some p)
      → AcceptedOn (o ∷ asked l) p
  unfolding create_supervisord begin_run
  event_loop-config_of o file config l j p e found =
      let s = o ∷ asked l in
      let d = begin_run os (create_supervisord os files config) in
      last_named-All (AcceptedOn s) j _ p
        (event_loop-Programs s l d (All-mem o (asked l) (asked l) (All-self (asked l)))
          (parsed-AcceptedOn s o file config (Memᴰ.head refl) e))
        (sym ((event_loop-Matches t os files pid config l).0 j) ∙ found)
