-- ===== src/Ctl/Commands/Restart.antt =====
-- supervisorctl.h, `cmdRestart_` of one process: the two calls and what becomes of their failures.
use supervisorcpp.Prelude.{
  Bool, true, false, List, [], ◌∷◌, ◌++◌, if◌then◌else◌, ℤ, pos, Bytes, codes, bytes_eq, ◌≡◌, refl,
  ap, ◌∙◌, inl, inr, Bool-cases,
}
use supervisorcpp.PropertyTree.{PropertyTree}
use supervisorcpp.Ctl.Call.{xmlrpc_error, runtime_error, Called, answered, fails}
use supervisorcpp.Ctl.Commands.{call, stop_tolerant, tolerate_not_running, cmd_restart}
use supervisorcpp.Ctl.Worlds.{World, Result, Command, print, ok, error, ◌>>=◌, done, handle}

-- The process is stopped, or was not running.
unfoldable pub is_down : {t : PropertyTree} → Called t → Bool
unfolding bytes_eq
is_down (answered tree) = true
is_down (fails (xmlrpc_error code name message)) = bytes_eq code (codes "NOT_RUNNING")
is_down (fails (runtime_error message)) = false

abbrev pub failed {ℓ} :
    {t : PropertyTree} {S : Type 0} {A : Type ℓ} → World S → Called t → A → World S × Result A
failed w (answered tree) a = (w, ok a)
failed w (fails e) a = (w, error e)

-- What the start gives, in the world behind it.
abbrev pub ended : {t : PropertyTree} {S : Type 0} → World S → Bytes → Called t → World S × Result ℤ
ended w name (answered tree) =
    (record w { out = w.out ++ (name ++ codes ": restarted\n") }, ok (pos 0))
ended w name (fails e) = (w, error e)

module _ (t : PropertyTree) {S : Type 0} (call_method : Bytes → List Bytes → S → S × Called t) where
  -- The world behind a call.
  abbrev behind : World S → Bytes → Bytes → World S
  behind w method name = record w { daemon = (call_method method (name ∷ []) w.daemon).0 }

  tolerated :
      (w : World S) (name : Bytes) (r : Called t)
      → (call_method (codes "supervisor.stopProcess") (name ∷ []) w.daemon).1 ≡ r
      → stop_tolerant t call_method name w ≡ (
          if is_down r
          then (behind w (codes "supervisor.stopProcess") name, ok tt)
          else failed (behind w (codes "supervisor.stopProcess") name) r tt)
  unfolding stop_tolerant handle tolerate_not_running call is_down ◌>>=◌
  tolerated w name (answered tree) e = rw e refl
  tolerated w name (fails (runtime_error message)) e = rw e refl
  tolerated w name (fails (xmlrpc_error code other message)) e =
      elim (Bool-cases (bytes_eq code (codes "NOT_RUNNING"))) [
        | inl down ↦ rw (e, down) refl
        | inr up ↦ rw (e, up) refl
      ]

  -- The second half of the command.
  abbrev start_it : Bytes → Command S ℤ
  start_it name = do
    _ ← call t call_method (codes "supervisor.startProcess") (name ∷ [])
    _ ← print (name ++ codes ": restarted\n")
    done (pos 0)

  started :
      (w : World S) (name : Bytes) (r : Called t)
      → (call_method (codes "supervisor.startProcess") (name ∷ []) w.daemon).1 ≡ r
      → start_it name w ≡ ended (behind w (codes "supervisor.startProcess") name) name r
  unfolding call ◌>>=◌
  started w name (answered tree) e = rw e refl
  started w name (fails f) e = rw e refl

  -- Both halves, by the answer to the stop.
  restarted :
      (w : World S) (name : Bytes) (r : Called t)
      → (call_method (codes "supervisor.stopProcess") (name ∷ []) w.daemon).1 ≡ r
      → (stop_tolerant t call_method name >>= λ _. start_it name) w ≡ (
          if is_down r
          then start_it name (behind w (codes "supervisor.stopProcess") name)
          else failed (behind w (codes "supervisor.stopProcess") name) r (pos 0))
  unfolding ◌>>=◌ is_down
  restarted w name (answered tree) e = rw (tolerated w name (answered tree) e) refl
  restarted w name (fails (runtime_error message)) e =
      rw (tolerated w name (fails (runtime_error message)) e) refl
  restarted w name (fails (xmlrpc_error code other message)) e =
      elim (Bool-cases (bytes_eq code (codes "NOT_RUNNING"))) [
        | inl down ↦
            rw (tolerated w name (fails (xmlrpc_error code other message)) e) (rw down refl)
        | inr up ↦ rw (tolerated w name (fails (xmlrpc_error code other message)) e) (rw up refl)
      ]

  -- `restart` of a process stops it first, then starts it in the state that the stop left. A failure
  -- of the stop with the code `NOT_RUNNING` does not count; any other leaves the command before a
  -- start is asked for. It returns 0, and says so, exactly if the start is answered; otherwise what
  -- the start throws leaves the command.
  pub cmd_restart_lem :
      (w : World S) (name : Bytes) (args : List Bytes)
      → bytes_eq name (codes "all") ≡ false
      → let stopped = call_method (codes "supervisor.stopProcess") (name ∷ []) w.daemon in
        let after = call_method (codes "supervisor.startProcess") (name ∷ []) stopped.0 in
        cmd_restart t call_method (name ∷ args) w ≡ (
          if is_down stopped.1
          then ended (record w { daemon = after.0 }) name after.1
          else failed (record w { daemon = stopped.0 }) stopped.1 (pos 0))
  unfolding cmd_restart
  cmd_restart_lem w name args one =
      rw (one, cmd_restart)
        (restarted w name _ refl
          ∙ ap
              (λ m.
                if is_down (call_method (codes "supervisor.stopProcess") (name ∷ []) w.daemon).1
                then m
                else failed (behind w (codes "supervisor.stopProcess") name)
                    (call_method (codes "supervisor.stopProcess") (name ∷ []) w.daemon).1 (pos 0))
              (started (behind w (codes "supervisor.stopProcess") name) name _ refl))
