-- ===== src/Rpc/Server.antt =====
-- rpc/rpc_server.cpp, `register_handler` and `dispatch_method`.
use supervisorcpp.Prelude.{
  List, [], ◌∷◌, ◌++◌, Option, none, some, if◌then◌else◌, Bytes, codes, bytes_eq, bytes_eq_iff, ◌≡◌,
  refl, arith, inl, inr, Bool-cases, Option-cases, subst,
}

-- What a handler returns, or the text of what it throws.
pub data Reply : Type 0 where
  result fault : Bytes → Reply

-- A handler over the state `S` that it captures by reference.
abbrev pub Handler : Type 0 → Type 0
Handler S = List Bytes → S → S × Reply

-- `handlers_`; the order of a map that is only searched does not show.
abbrev pub Handlers : Type 0 → Type 0
Handlers S = List (Bytes × Handler S)

module _ {S : Type 0} where
  unfoldable pub register_handler : Bytes → Handler S → Handlers S → Handlers S
  register_handler name h [] = (name, h) ∷ []
  register_handler name h ((k, g) ∷ r) =
      if bytes_eq k name then (name, h) ∷ r else (k, g) ∷ register_handler name h r

  unfoldable pub find_handler : Bytes → Handlers S → Option (Handler S)
  find_handler name [] = none
  find_handler name ((k, g) ∷ r) = if bytes_eq k name then some g else find_handler name r

  unfoldable pub dispatch_method : Handlers S → Bytes → List Bytes → S → S × Reply
  dispatch_method handlers name params s = elim (find_handler name handlers) [
    | none ↦ (s, fault (codes "Unknown method: " ++ name))
    | some h ↦ h params s
  ]

  find_handler-register :
      (name other : Bytes) (h : Handler S) (l : Handlers S)
      → find_handler other (register_handler name h l)
        ≡ (if bytes_eq name other then some h else find_handler other l)
  unfolding find_handler register_handler
  find_handler-register name other h [] = refl
  find_handler-register name other h ((k, g) ∷ r) = ground (
    arith,
    bytes_eq_iff name other,
    bytes_eq_iff k name,
    bytes_eq_iff k other,
    find_handler-register name other h r,
  )

  -- A call goes to the handler registered last under its name; registering under another name does
  -- not change it.
  dispatch_method-register :
      (name other : Bytes) (h : Handler S) (l : Handlers S) (params : List Bytes) (s : S)
      → dispatch_method (register_handler name h l) other params s
        ≡ (if bytes_eq name other then h params s else dispatch_method l other params s)
  unfolding dispatch_method
  dispatch_method-register name other h l params s = elim (Bool-cases (bytes_eq name other)) [
    | inl same ↦ rw (find_handler-register name other h l, dispatch_method) (rw same)
    | inr differs ↦ rw (find_handler-register name other h l, dispatch_method) (rw differs)
  ]

  -- Every handler leads from a state to one that the relation allows.
  abbrev pub AllLead : (S → S → Type 0) → Handlers S → Type 0
  AllLead R [] = Unit
  AllLead R ((_, h) ∷ l) = ((params : List Bytes) (s : S) → R s (h params s).0) × AllLead R l

  pub AllLead-register :
      (R : S → S → Type 0) (name : Bytes) (h : Handler S) (l : Handlers S)
      → ((params : List Bytes) (s : S) → R s (h params s).0)
      → AllLead R l
      → AllLead R (register_handler name h l)
  unfolding register_handler
  AllLead-register R name h [] new all = (new, tt)
  AllLead-register R name h ((k, g) ∷ l) new (old, all) = elim (Bool-cases (bytes_eq k name)) [
    | inl same ↦ rw same (new, all)
    | inr differs ↦ rw differs (old, AllLead-register R name h l new all)
  ]

  some_handler : (g h : Handler S) → some g ≡ some h → g ≡ h
  some_handler g h e = cc e

  found-leads :
      (R : S → S → Type 0) (name : Bytes) (h : Handler S) (l : Handlers S)
      → AllLead R l
      → find_handler name l ≡ some h
      → (params : List Bytes) (s : S) → R s (h params s).0
  unfolding find_handler
  found-leads R name h [] all e = absurd (cc e)
  found-leads R name h ((k, g) ∷ l) (old, all) e = elim (Bool-cases (bytes_eq k name)) [
    | inl same ↦
        subst (λ (f : Handler S). (params : List Bytes) (s : S) → R s (f params s).0)
          (some_handler g h (ground (arith, e, same))) old
    | inr differs ↦ found-leads R name h l all (ground (arith, e, differs))
  ]

  -- So does every call, also one without a handler.
  pub dispatch_method-leads :
      (R : S → S → Type 0) (l : Handlers S)
      → ((s : S) → R s s)
      → AllLead R l
      → (name : Bytes) (params : List Bytes) (s : S) → R s (dispatch_method l name params s).0
  unfolding dispatch_method
  dispatch_method-leads R l same all name params s = elim (Option-cases (find_handler name l)) [
    | inl e ↦ rw (e, dispatch_method) (same s)
    | inr (h, e) ↦ rw (e, dispatch_method) (found-leads R name h l all e params s)
  ]
