-- ===== src/Ctl/Reading.antt =====
-- supervisorctl.h, `call_method_` and `check_fault_`: what a response that counts as answered holds.
use supervisorcpp.Prelude.{
  ◌++◌, none, some, Bytes, codes, Tried, returns, throws, ◌≡◌, refl, sym, ap, subst, ◌∙◌, inl, inr,
  Option-cases,
}
use supervisorcpp.PropertyTree.{PropertyTree}
use supervisorcpp.Ctl.Call.{
  runtime_error, Called, answered, fails, read_tree, check_fault, fault_string, or_unknown,
  translate, translations,
}

module _ (t : PropertyTree) where
  answered-tree : (a b : t.Tree) → ◌≡◌ {A = Called t} (answered a) (answered b) → a ≡ b
  answered-tree a b e = cc e

  -- A response that counts as answered is read, and has no fault.
  pub read_tree-answered :
      (response : Bytes) (tree : t.Tree)
      → read_tree t response ≡ answered tree
      → (t.read_xml response ≡ returns tree) × (check_fault t tree ≡ none)
  unfolding read_tree
  read_tree-answered response tree e = go (t.read_xml response) refl
    where
      go :
          (m : Tried t.Tree)
          → t.read_xml response ≡ m
          → (t.read_xml response ≡ returns tree) × (check_fault t tree ≡ none)
      go (throws what) h =
          let read : read_tree t response ≡ fails (runtime_error (codes "RPC error: " ++ what)) =
            rw (h, read_tree) refl in
          absurd (cc (sym e ∙ read))
      go (returns found) h = elim (Option-cases (check_fault t found)) [
        | inl sound ↦
            let read : read_tree t response ≡ answered found = rw (h, read_tree) (rw sound refl) in
            let same = answered-tree found tree (sym read ∙ e) in
            (h ∙ ap returns same, subst (λ x. check_fault t x ≡ none) same sound)
        | inr (f, bad) ↦
            let read : read_tree t response ≡ fails f = rw (h, read_tree) (rw bad refl) in
            absurd (cc (sym e ∙ read))
      ]

  pub check_fault-some :
      (tree members : t.Tree)
      → t.get_child_optional (codes "methodResponse.fault.value.struct") tree ≡ some members
      → ¬ (check_fault t tree ≡ none)
  unfolding check_fault
  check_fault-some tree members there e =
      let fault = translate translations (or_unknown t (fault_string t (t.children members))) in
      let found : check_fault t tree ≡ some fault = rw (there, check_fault) refl in
      absurd (cc (sym e ∙ found))
