-- ===== src/Rpc/Replies.antt =====
-- rpc_handlers.h, `startProcess`: what the reply says of the process.
use supervisorcpp.Prelude.{
  true, false, not, ◌||◌, List, ◌∷◌, ◌++◌, ℕ, none, some, if◌then◌else◌, Bytes, codes, ◌≡◌, ◌⊎◌,
  refl, sym, subst, ◌∙◌, arith, inl, inr, Bool-cases, Option-cases,
}
use supervisorcpp.Process.Types.{Process, running, starting, state_eq}
use supervisorcpp.Process.Spawn.{SpawnAnswers}
use supervisorcpp.Process.Descriptors.{spawn-Keeps}
use supervisorcpp.Process.Life.{start}
use supervisorcpp.Manager.Table.{Manager, Os, find}
use supervisorcpp.Manager.Lookup.{found_replaced}
use supervisorcpp.Manager.Control.{start_process}
use supervisorcpp.Rpc.Server.{Reply, fault}
use supervisorcpp.Rpc.Handlers.{Replying, start_handler, is_true}

-- A reply of success with the process in STARTING, or a fault that left no process of this name in
-- STARTING but one that was.
abbrev pub Answered : Replying → Bytes → Manager → Manager × Reply → Type 0
Answered r name m (m', reply) =
    ((reply ≡ is_true r)
      × ((q : Process) × (find name m'.process_map ≡ some q) × (q.state ≡ starting)))
    ⊎ (((text : Bytes) × (reply ≡ fault text))
        × ((q : Process)
            → find name m'.process_map ≡ some q
            → q.state ≡ starting
            → find name m.process_map ≡ some q))

start-starting :
    (a : SpawnAnswers) (now : ℕ) (p : Process)
    → (state_eq p.state running || state_eq p.state starting) ≡ false
    → state_eq (start a now p).0.state starting ≡ (start a now p).1
unfolding start
start-starting a now p down = ground (arith, spawn-Keeps a p)

some_eq : (q p : Process) → some q ≡ some p → q ≡ p
some_eq q p e = cc

-- The reply to a start that was tried.
Answered-tried :
    (os : Os) (r : Replying) (name : Bytes) (m : Manager) (p : Process)
    → find name m.process_map ≡ some p
    → (state_eq p.state running || state_eq p.state starting) ≡ false
    → Answered r name m (
      (start_process os name m).0,
      if not (start_process os name m).1 then fault (codes "SPAWN_ERROR: " ++ name) else is_true r,
    )
unfolding start_process
Answered-tried os r name m p e down =
    let s = start (os.spawns m.asked) (os.now m.asked) p in
    let there = found_replaced name p s.0 m.process_map e in
    let state = start-starting (os.spawns m.asked) (os.now m.asked) p down in
    rw (e, start_process)
      (elim (Bool-cases s.1) [
        | inl up ↦ rw up (inl (refl, (s.0, there, ground (arith, state))))
        | inr failed ↦ rw failed (
            inr ((_, refl), λ q f t. absurd (ground (arith, state, some_eq s.0 q (sym there ∙ f)))))
      ])

-- A call of `startProcess` is answered with success and the process is in STARTING then; or with a
-- fault, and then a process of this name that is in STARTING was so before, unchanged.
pub start_handler-Answered :
    (os : Os) (r : Replying) (name : Bytes) (params : List Bytes) (m : Manager)
    → Answered r name m (start_handler os r (name ∷ params) m)
unfolding start_handler
start_handler-Answered os r name params m = elim (Option-cases (find name m.process_map)) [
  | inl e ↦ subst (Answered r name m) (sym (none_known e)) (inr ((_, refl), λ q f s. f))
  | inr (p, e) ↦ elim (Bool-cases (state_eq p.state running || state_eq p.state starting)) [
    | inl up ↦ subst (Answered r name m) (sym (is_up p e up)) (inr ((_, refl), λ q f s. f))
    | inr down ↦
        subst (Answered r name m) (sym (is_down p e down)) (Answered-tried os r name m p e down)
  ]
]
  where
    none_known :
        find name m.process_map ≡ none
        → start_handler os r (name ∷ params) m ≡ (m, fault (codes "BAD_NAME: " ++ name))
    none_known e = rw (e, start_handler)

    is_up :
        (p : Process)
        → find name m.process_map ≡ some p
        → (state_eq p.state running || state_eq p.state starting) ≡ true
        → start_handler os r (name ∷ params) m ≡ (m, fault (codes "ALREADY_STARTED: " ++ name))
    is_up p e up = rw (e, start_handler) (rw up)

    is_down :
        (p : Process)
        → find name m.process_map ≡ some p
        → (state_eq p.state running || state_eq p.state starting) ≡ false
        → start_handler os r (name ∷ params) m ≡ (
          (start_process os name m).0,
          if not (start_process os name m).1
              then fault (codes "SPAWN_ERROR: " ++ name)
              else is_true r,
        )
    is_down p e down = rw (e, start_handler) (rw down)
