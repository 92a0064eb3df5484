-- ===== src/Daemon/Ending.antt =====
-- supervisord.cpp, `run`: how the event loop ends.
use supervisorcpp.Prelude.{
  ◌++◌, ℕ, ◌≤◌, ◌<◌, Bool, true, false, List, [], ◌∷◌, Option, ltb, if◌then◌else◌, Bytes, ◌≡◌, ◌⊎◌,
  refl, sym, ap, subst, ◌∙◌, arith, inl, inr, Bool-cases, Option-cases, if-either,
}
use mathlib.Core.List.{Memᴰ}
use supervisorcpp.PropertyTree.{PropertyTree}
use supervisorcpp.Logger.Writer.{is_empty}
use supervisorcpp.Config.Outside.{Outside}
use supervisorcpp.Config.Types.{Configuration}
use supervisorcpp.Manager.Table.{Os}
use supervisorcpp.Manager.Loop.{has_running_processes}
use supervisorcpp.Manager.Control.{LogFiles}
use supervisorcpp.Manager.Shutdown.{stop_all-has_running_processes}
use supervisorcpp.Rpc.Handlers.{Replying}
use supervisorcpp.Daemon.{
  Supervisord, begin_run, on_shutdown_signal, rpc_shutdown, reload_config, is_restarting,
  parsed_file,
}
use supervisorcpp.Daemon.Calls.{AllowsCalls}
use supervisorcpp.Daemon.Run.{
  Occurrence, terminated, hung_up, turns_to_posted, takes, connects, serve_connection, occurs,
  event_loop,
}
use supervisorcpp.Daemon.Serving.{serve_connection-leads}

-- A call neither ends the loop nor takes a posted task away.
abbrev GoesOn : Supervisord → Supervisord → Type 0
GoesOn d e = (e.is_over ≡ d.is_over) × (d.posted ≤ e.posted)

reload_config-GoesOn :
    (parse : Bytes → Option Configuration) (os : Os) (files : ℕ → LogFiles) (d : Supervisord)
    → GoesOn d (reload_config parse os files d)
unfolding reload_config
reload_config-GoesOn parse os files d = elim (Bool-cases (is_empty d.config.config_file)) [
  | inl none_known ↦ rw none_known (refl, omega arith)
  | inr known ↦ elim (Bool-cases (is_restarting d.daemon_state)) [
    | inl busy ↦ rw (known, busy) (refl, omega arith)
    | inr free ↦ elim (Option-cases (parse d.config.config_file)) [
      | inl e ↦ rw (known, free, e) (refl, omega arith)
      | inr (c, e) ↦ rw (known, free, e) (refl, omega arith)
    ]
  ]
]

GoesOn-AllowsCalls :
    (t : PropertyTree) (os : Os) (files : ℕ → LogFiles) (o : Outside)
    → AllowsCalls t os files o GoesOn
unfolding begin_run
GoesOn-AllowsCalls t os files o = record {
  same = λ d. (refl, omega arith);
  starts_all = λ d. (refl, omega arith);
  stops_all = λ d. (refl, omega arith);
  starts = λ name d. (refl, omega arith);
  stops = λ name d. (refl, omega arith);
  posts = λ d. (refl, omega arith);
  reloads = λ d. reload_config-GoesOn (parsed_file t o) os files d;
}

-- Where the loop was told to stop, no process has a child.
abbrev pub IsQuiet : Supervisord → Type 0
IsQuiet d = d.is_over ≡ true → has_running_processes d.process_manager.process_map ≡ false

-- The loop was told to stop, or a task is there that will.
abbrev pub IsEnding : Supervisord → Type 0
IsEnding d = (d.is_over ≡ true) ⊎ (0 < d.posted)

GoesOn-IsQuiet : (d e : Supervisord) → GoesOn d e → d.is_over ≡ false → IsQuiet e
GoesOn-IsQuiet d e (same, more) on over = absurd (cc (sym on ∙ (sym same ∙ over)))

GoesOn-IsEnding : (d e : Supervisord) → GoesOn d e → IsEnding d → IsEnding e
GoesOn-IsEnding d e (same, more) (inl over) = inl (same ∙ over)
GoesOn-IsEnding d e (same, more) (inr task) = inr (omega (arith, more, task))

module _ (t : PropertyTree) (os : Os) (files : ℕ → LogFiles) (pid : ℕ) where
  connects-GoesOn :
      (r : Replying) (o : Outside) (chunks : List Bytes) (d : Supervisord)
      → GoesOn d (serve_connection t os files pid r o chunks d).0
  connects-GoesOn r o =
      serve_connection-leads t os files pid GoesOn o (GoesOn-AllowsCalls t os files o) r

  occurs-IsQuiet :
      (x : Occurrence) (d : Supervisord) → d.is_over ≡ false → IsQuiet (occurs t os files pid x d).0
  unfolding occurs on_shutdown_signal rpc_shutdown
  occurs-IsQuiet terminated d on = λ over. stop_all-has_running_processes os d.process_manager
  occurs-IsQuiet (hung_up o) d on =
      GoesOn-IsQuiet d (reload_config (parsed_file t o) os files d)
        (reload_config-GoesOn (parsed_file t o) os files d) on
  occurs-IsQuiet turns_to_posted d on =
      if-either IsQuiet (ltb 0 d.posted) _ _
        (λ over. stop_all-has_running_processes os d.process_manager)
        (λ over. absurd (cc (sym on ∙ over)))
  occurs-IsQuiet (takes turn) d on = λ over. absurd (cc (sym on ∙ over))
  occurs-IsQuiet (connects r o chunks) d on =
      GoesOn-IsQuiet d (serve_connection t os files pid r o chunks d).0
        (connects-GoesOn r o chunks d) on

  occurs-IsEnding :
      (x : Occurrence) (d : Supervisord) → IsEnding d → IsEnding (occurs t os files pid x d).0
  unfolding occurs on_shutdown_signal rpc_shutdown
  occurs-IsEnding terminated d h = inl refl
  occurs-IsEnding (hung_up o) d h =
      GoesOn-IsEnding d (reload_config (parsed_file t o) os files d)
        (reload_config-GoesOn (parsed_file t o) os files d) h
  occurs-IsEnding turns_to_posted d h = if-either IsEnding (ltb 0 d.posted) _ _ (inl refl) h
  occurs-IsEnding (takes turn) d h = h
  occurs-IsEnding (connects r o chunks) d h =
      GoesOn-IsEnding d (serve_connection t os files pid r o chunks d).0
        (connects-GoesOn r o chunks d) h

  posted-over :
      (d : Supervisord) → 0 < d.posted → (occurs t os files pid turns_to_posted d).0.is_over ≡ true
  unfolding occurs rpc_shutdown
  posted-over d h = ground (arith, h)

  abbrev event_next : Occurrence → List Occurrence → Supervisord → Supervisord × Bool
  event_next x l d =
      let (d', goes_on) = occurs t os files pid x d in
      if goes_on then event_loop t os files pid l d' else (d', false)

  -- A loop that was told to stop does nothing more.
  event_loop-over :
      (l : List Occurrence) (d : Supervisord)
      → d.is_over ≡ true
      → event_loop t os files pid l d ≡ (d, true)
  unfolding event_loop
  event_loop-over [] d over = refl
  event_loop-over (x ∷ l) d over = ap (λ b. if b then (d, true) else event_next x l d) over

  -- A loop that was not told to stop takes what comes next.
  event_loop-on :
      (x : Occurrence) (l : List Occurrence) (d : Supervisord)
      → d.is_over ≡ false
      → event_loop t os files pid (x ∷ l) d ≡ event_next x l d
  unfolding event_loop
  event_loop-on x l d on = ap (λ b. if b then (d, true) else event_next x l d) on

  -- What follows after a loop that was told to stop changes nothing.
  pub event_loop-append :
      (l more : List Occurrence) (d : Supervisord)
      → (event_loop t os files pid l d).0.is_over ≡ true
      → event_loop t os files pid (l ++ more) d ≡ event_loop t os files pid l d
  unfolding event_loop
  event_loop-append [] more d over = event_loop-over more d over
  event_loop-append (x ∷ l) more d over = elim (Bool-cases d.is_over) [
    | inl told ↦ event_loop-over (x ∷ (l ++ more)) d told ∙ sym (event_loop-over (x ∷ l) d told)
    | inr on ↦
        let (d', goes_on) = occurs t os files pid x d in
        let after = λ (k : List Occurrence) (b : Bool).
          if b then event_loop t os files pid k d' else (d', false) in
        let next = λ (k : List Occurrence) (b : Bool) (e : goes_on ≡ b).
          event_loop-on x k d on ∙ ap (after k) e in
        elim (Bool-cases goes_on) [
          | inl up ↦
              next (l ++ more) true up
              ∙ event_loop-append l more d'
                  (ap (λ (y : Supervisord × Bool). y.0.is_over) (sym (next l true up)) ∙ over)
              ∙ sym (next l true up)
          | inr down ↦ next (l ++ more) false down ∙ sym (next l false down)
        ]
  ]

  pub event_loop-IsQuiet :
      (l : List Occurrence) (d : Supervisord)
      → IsQuiet d
      → IsQuiet (event_loop t os files pid l d).0
  unfolding event_loop
  event_loop-IsQuiet [] d h = h
  event_loop-IsQuiet (x ∷ l) d h = elim (Bool-cases d.is_over) [
    | inl over ↦
        subst (λ (y : Supervisord × Bool). IsQuiet y.0) (sym (event_loop-over (x ∷ l) d over)) h
    | inr on ↦
        let one = occurs t os files pid x d in
        let quiet = occurs-IsQuiet x d on in
        subst (λ (y : Supervisord × Bool). IsQuiet y.0) (sym (event_loop-on x l d on))
          (if-either (λ (y : Supervisord × Bool). IsQuiet y.0) one.1 _ _
            (event_loop-IsQuiet l one.0 quiet) quiet)
  ]

  -- The loop returned and was told to stop.
  abbrev pub IsDone : Supervisord × Bool → Type 0
  IsDone y = y.1 ≡ true → y.0.is_over ≡ true

  -- The posted task is next, or comes later.
  behind :
      (x : Occurrence) (l : List Occurrence) (d : Supervisord)
      → 0 < d.posted
      → Memᴰ turns_to_posted (x ∷ l)
      → (Memᴰ turns_to_posted l
          → IsDone (event_loop t os files pid l (occurs t os files pid x d).0))
      → IsDone (event_loop t os files pid l (occurs t os files pid x d).0)
  behind x l d task (Memᴰ.head e) rest =
      let over : (occurs t os files pid x d).0.is_over ≡ true =
        ap (λ y. (occurs t os files pid y d).0.is_over) (sym e) ∙ posted-over d task in
      subst IsDone (sym (event_loop-over l _ over)) (λ returned. over)
  behind x l d task (Memᴰ.tail later) rest = rest later

  pub event_loop-IsDone :
      (l : List Occurrence) (d : Supervisord)
      → Memᴰ turns_to_posted l
      → IsEnding d
      → IsDone (event_loop t os files pid l d)
  event_loop-IsDone [] d m h = absurd (elim m [ ])
  event_loop-IsDone (x ∷ l) d m (inl over) =
      subst IsDone (sym (event_loop-over (x ∷ l) d over)) (λ returned. over)
  event_loop-IsDone (x ∷ l) d m (inr task) = elim (Bool-cases d.is_over) [
    | inl over ↦ subst IsDone (sym (event_loop-over (x ∷ l) d over)) (λ returned. over)
    | inr on ↦
        let one = occurs t os files pid x d in
        subst IsDone (sym (event_loop-on x l d on)) (
          if-either IsDone one.1 _ _
            (behind x l d task m
              (λ later. event_loop-IsDone l one.0 later (occurs-IsEnding x d (inr task))))
            (λ returned. absurd (cc returned)))
  ]
