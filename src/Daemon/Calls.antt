-- ===== src/Daemon/Calls.antt =====
-- supervisord.cpp and rpc_handlers.h: what a call may do, by the steps that its handlers take.
use supervisorcpp.Prelude.{ℕ, suc, ◌||◌, List, [], ◌∷◌, Bytes, inl, inr, Bool-cases, Option-cases}
use supervisorcpp.Process.Types.{running, starting, stopped, exited, fatal, state_eq}
use supervisorcpp.PropertyTree.{PropertyTree}
use supervisorcpp.Config.Outside.{Outside}
use supervisorcpp.Manager.Table.{Manager, Os, find}
use supervisorcpp.Manager.Control.{LogFiles, stop_all, start_process, stop_process}
use supervisorcpp.Rpc.Server.{
  Handlers, dispatch_method, AllLead, AllLead-register, dispatch_method-leads,
}
use supervisorcpp.Rpc.Handlers.{
  Replying, get_process_info, start_handler, stop_handler, start_all_handler, stop_all_handler,
  all_info, register_process_handlers,
}
use supervisorcpp.Daemon.{Supervisord, begin_run, reload_config, parsed_file}
use supervisorcpp.Daemon.Handlers.{
  on_managers, register_rpc_handlers, reload_handler, shutdown_handler, state_handler, api_version,
  identification, process_id,
}

-- What a relation between states has to allow, for every call to keep to it, with what the file system
-- answers to a reload.
pub record AllowsCalls (t : PropertyTree) (os : Os) (files : ℕ → LogFiles) (o : Outside)
    (R : Supervisord → Supervisord → Type 0) : Type 0 where
  pub same : (d : Supervisord) → R d d
  pub starts_all : (d : Supervisord) → R d (begin_run os d)
  pub stops_all :
      (d : Supervisord) → R d (record d { process_manager = stop_all os d.process_manager })
  pub starts :
      (name : Bytes) (d : Supervisord)
      → R d (record d { process_manager = (start_process os name d.process_manager).0 })
  pub stops :
      (name : Bytes) (d : Supervisord)
      → R d (record d { process_manager = (stop_process os name d.process_manager).0 })
  pub posts : (d : Supervisord) → R d (record d { posted = suc d.posted })
  pub reloads : (d : Supervisord) → R d (reload_config (parsed_file t o) os files d)

module _ (t : PropertyTree) (os : Os) (files : ℕ → LogFiles) (o : Outside)
    (R : Supervisord → Supervisord → Type 0) (allowed : AllowsCalls t os files o R) where
  -- What a handler of the manager may do of the daemon.
  abbrev Manages : Manager → Manager → Type 0
  Manages m n =
      (d : Supervisord) → R (record d { process_manager = m }) (record d { process_manager = n })

  AllLead-on_managers : (l : Handlers Manager) → AllLead Manages l → AllLead R (on_managers l)
  unfolding on_managers
  AllLead-on_managers [] all = tt
  AllLead-on_managers ((name, h) ∷ l) (one, all) =
      (λ params d. one params d.process_manager d, AllLead-on_managers l all)

  get_process_info-Manages :
      (r : Replying) (params : List Bytes) (m : Manager) → Manages m (get_process_info r params m).0
  unfolding get_process_info
  get_process_info-Manages r [] m d = allowed.same (record d { process_manager = m })
  get_process_info-Manages r (name ∷ _) m d = elim (Option-cases (find name m.process_map)) [
    | inl e ↦ rw (e, get_process_info) (allowed.same (record d { process_manager = m }))
    | inr (p, e) ↦ rw (e, get_process_info) (allowed.same (record d { process_manager = m }))
  ]

  start_handler-Manages :
      (r : Replying) (params : List Bytes) (m : Manager) → Manages m (start_handler os r params m).0
  unfolding start_handler
  start_handler-Manages r [] m d = allowed.same (record d { process_manager = m })
  start_handler-Manages r (name ∷ _) m d = elim (Option-cases (find name m.process_map)) [
    | inl e ↦ rw (e, start_handler) (allowed.same (record d { process_manager = m }))
    | inr (p, e) ↦
        rw (e, start_handler)
          (elim (Bool-cases (state_eq p.state running || state_eq p.state starting)) [
            | inl up ↦ rw up (allowed.same (record d { process_manager = m }))
            | inr down ↦ rw down (allowed.starts name (record d { process_manager = m }))
          ])
  ]

  stop_handler-Manages :
      (r : Replying) (params : List Bytes) (m : Manager) → Manages m (stop_handler os r params m).0
  unfolding stop_handler
  stop_handler-Manages r [] m d = allowed.same (record d { process_manager = m })
  stop_handler-Manages r (name ∷ _) m d = elim (Option-cases (find name m.process_map)) [
    | inl e ↦ rw (e, stop_handler) (allowed.same (record d { process_manager = m }))
    | inr (p, e) ↦
        rw (e, stop_handler)
          (elim (Bool-cases
            (state_eq p.state stopped || (state_eq p.state exited || state_eq p.state fatal))) [
              | inl down ↦ rw down (allowed.same (record d { process_manager = m }))
              | inr up ↦ rw up (allowed.stops name (record d { process_manager = m }))
            ])
  ]

  process_handlers-Manages : (r : Replying) → AllLead Manages (register_process_handlers os r [])
  unfolding register_process_handlers start_all_handler stop_all_handler all_info begin_run
  process_handlers-Manages r =
      AllLead-register Manages _ _ _
        (λ params m d. allowed.stops_all (record d { process_manager = m }))
        (AllLead-register Manages _ _ _
          (λ params m d. allowed.starts_all (record d { process_manager = m }))
          (AllLead-register Manages _ _ _ (stop_handler-Manages r) (
            AllLead-register Manages _ _ _ (start_handler-Manages r) (
              AllLead-register Manages _ _ _ (get_process_info-Manages r) (
                AllLead-register Manages _ _ []
                  (λ params m d. allowed.same (record d { process_manager = m })) tt)))))

  handlers-lead :
      (pid : ℕ) (r : Replying) → AllLead R (register_rpc_handlers (parsed_file t o) os files pid r)
  unfolding register_rpc_handlers state_handler shutdown_handler reload_handler api_version
      identification process_id
  handlers-lead pid r =
      let same : (params : List Bytes) (d : Supervisord) → R d d = λ params d. allowed.same d in
      AllLead-register R _ _ _ same (
        AllLead-register R _ _ _ same (
          AllLead-register R _ _ _ same (
            AllLead-register R _ _ _ same (
              AllLead-register R _ _ _ same (
                AllLead-register R _ _ _ (λ params d. allowed.reloads d)
                  (AllLead-register R _ _ _ (λ params d. allowed.posts d)
                    (AllLead-register R _ _ _ same
                      (AllLead-on_managers _ (process_handlers-Manages r)))))))))

  pub dispatch_method-AllowsCalls :
      (pid : ℕ) (r : Replying) (name : Bytes) (params : List Bytes) (d : Supervisord)
      → R d
          (dispatch_method (register_rpc_handlers (parsed_file t o) os files pid r) name params d).0
  dispatch_method-AllowsCalls pid r = dispatch_method-leads R _ allowed.same (handlers-lead pid r)
