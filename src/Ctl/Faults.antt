-- ===== src/Ctl/Faults.antt =====
-- supervisorctl.h, `check_fault_`: the faults of the handlers as the user reads them.
use supervisorcpp.Prelude.{
  List, [], ◌∷◌, ◌++◌, some, Bytes, codes, begins, ◌≡◌, ◌⊎◌, refl, sym, ap, subst, inl, inr,
}
use supervisorcpp.PropertyTree.{PropertyTree}
use supervisorcpp.Ctl.Call.{
  Failure, xmlrpc_error, translations, translate, fault_string, or_unknown, check_fault,
}

-- The pair is one of the list.
abbrev pub IsAmong : Bytes × Bytes → List (Bytes × Bytes) → Type 0
IsAmong p [] = ⊥
IsAmong p (q ∷ r) = (p ≡ q) ⊎ IsAmong p r

abbrev friendly_error : Bytes → Bytes → Bytes → Failure
friendly_error code friendly name = xmlrpc_error code name (name ++ (codes " - " ++ friendly))

-- With each of the four codes.
translate-code :
    (t : PropertyTree) (p : Bytes × Bytes) (name : Bytes)
    → IsAmong p translations
    → translate translations (or_unknown t ((p.0 ++ codes ": ") ++ name))
      ≡ friendly_error p.0 p.1 name
unfolding translate begins or_unknown
translate-code t p name known =
    let Q : Bytes × Bytes → Type 0 = λ q.
      translate translations (or_unknown t ((q.0 ++ codes ": ") ++ name))
      ≡ friendly_error q.0 q.1 name in
    elim known [
      | inl e ↦ subst Q (sym e) refl
      | inr (inl e) ↦ subst Q (sym e) refl
      | inr (inr (inl e)) ↦ subst Q (sym e) refl
      | inr (inr (inr (inl e))) ↦ subst Q (sym e) refl
      | inr (inr (inr (inr h))) ↦ absurd h
    ]

-- A fault of the form `CODE: name` with one of the four known codes becomes an `XmlRpcError` with that
-- code and name, whatever the name is, and its text is the name with the friendly words.
check_fault-translated :
    (t : PropertyTree) (tree members : t.Tree) (code friendly name : Bytes)
    → IsAmong (code, friendly) translations
    → t.get_child_optional (codes "methodResponse.fault.value.struct") tree ≡ some members
    → fault_string t (t.children members) ≡ (code ++ codes ": ") ++ name
    → check_fault t tree ≡ some (xmlrpc_error code name (name ++ (codes " - " ++ friendly)))
unfolding check_fault
check_fault-translated t tree members code friendly name known struct is_fault =
    rw (struct, is_fault, check_fault) (ap some (translate-code t (code, friendly) name known))
