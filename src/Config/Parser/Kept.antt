-- ===== src/Config/Parser/Kept.antt =====
-- config_parser.cpp: a property of the configuration that every step of the parser keeps.
use supervisorcpp.Prelude.{
  ℕ, zero, suc, false, List, [], ◌∷◌, ◌++◌, Option, none, some, Bytes, codes, begins, drop, ◌≡◌,
  inl, inr, Bool-cases,
}
use supervisorcpp.PropertyTree.{PropertyTree}
use supervisorcpp.Process.Types.{ProgramConfig}
use supervisorcpp.Util.Secure.{Checked, any_equal}
use supervisorcpp.Config.Chain.{Ensures, Ensures-bind, Ensures-any}
use supervisorcpp.Config.Outside.{Outside}
use supervisorcpp.Config.Types.{Configuration, UnixHttpServerConfig, SupervisordConfig}
use supervisorcpp.Config.Parser.{
  expand_glob, include_files, parse_includes, parse_include_section, parse_programs, parse_stream,
  insert_included, parse_single_file,
}
use supervisorcpp.Config.Parser.Accepted.{
  IsAccepted, IsRead, read_program-IsRead, check_program-IsAccepted,
}

-- What the parser does to the configuration: it changes the settings, adds an accepted program, and
-- notes a file that is new.
pub record IsKept (o : Outside) (P : Configuration → Type 0) : Type 0 where
  pub settings :
      (c : Configuration) (u : UnixHttpServerConfig) (s : SupervisordConfig)
      → P c
      → P (record c { unix_http_server = u; supervisord = s })
  pub program :
      (c : Configuration) (p : ProgramConfig)
      → IsAccepted o p
      → P c
      → P (record c { programs = c.programs ++ p ∷ [] })
  pub noted :
      (c : Configuration) (f : Bytes)
      → any_equal f c.included ≡ false
      → P c
      → P (record c { included = f ∷ c.included })

module _ (t : PropertyTree) (o : Outside) (P : Configuration → Type 0) (k : IsKept o P) where
  open t use {Tree}

  parse_programs-kept :
      (sections : List (Bytes × Tree)) (c : Configuration)
      → P c
      → Ensures P (parse_programs t o sections c)
  unfolding parse_programs
  parse_programs-kept [] c i = i
  parse_programs-kept ((key, value) ∷ r) c i = elim (Bool-cases (begins (codes "program:") key)) [
    | inr other ↦ rw other (parse_programs-kept r c i)
    | inl program ↦ rw program (
        Ensures-bind IsRead P _ _ (read_program-IsRead t o (drop 8 key) value) λ p read.
          Ensures-bind (IsAccepted o) P _ _ (check_program-IsAccepted t o p read)
            λ q accepted. parse_programs-kept r _ (k.program c q accepted i))
  ]

  -- A step that keeps the property.
  abbrev Keeps : (Bytes → Configuration → Checked Configuration) → Type 0
  Keeps include = (f : Bytes) (c : Configuration) → P c → Ensures P (include f c)

  include_files-kept :
      (include : Bytes → Configuration → Checked Configuration) (files : List Bytes)
      (c : Configuration)
      → Keeps include
      → P c
      → Ensures P (include_files include files c)
  unfolding include_files
  include_files-kept include [] c step i = i
  include_files-kept include (f ∷ r) c step i =
      Ensures-bind P P _ _ (step f c i) (λ c' i'. include_files-kept include r c' step i')

  parse_includes-kept :
      (include : Bytes → Configuration → Checked Configuration) (base : Bytes)
      (patterns : List Bytes) (c : Configuration)
      → Keeps include
      → P c
      → Ensures P (parse_includes o include base patterns c)
  unfolding parse_includes
  parse_includes-kept include base [] c step i = i
  parse_includes-kept include base (p ∷ r) c step i =
      Ensures-bind P P _ _ (include_files-kept include (expand_glob o base p) c step i)
        (λ c' i'. parse_includes-kept include base r c' step i')

  parse_include_section-kept :
      (include : Bytes → Configuration → Checked Configuration) (base : Bytes)
      (section : Option Tree) (c : Configuration)
      → Keeps include
      → P c
      → Ensures P (parse_include_section t o include base section c)
  unfolding parse_include_section
  parse_include_section-kept include base none c step i = i
  parse_include_section-kept include [] (some s) c step i = i
  parse_include_section-kept include (b ∷ base) (some s) c step i =
      parse_includes-kept include (b ∷ base) _ c step i

  pub parse_stream-kept :
      (include : Bytes → Configuration → Checked Configuration) (text base : Bytes)
      (c : Configuration)
      → Keeps include
      → P c
      → Ensures P (parse_stream t o include text base c)
  unfolding parse_stream
  parse_stream-kept include text base c step i = Ensures-any P _ _ λ tree.
      Ensures-any P _ _ λ supervisord.
        Ensures-bind P P _ _
          (parse_include_section-kept include base _ _ step (k.settings c _ supervisord i))
          (λ c' i'. parse_programs-kept (t.children tree) c' i')

  insert_included-kept :
      (file : Bytes) (c : Configuration) → P c → Ensures P (insert_included t o file c)
  unfolding insert_included
  insert_included-kept file c i =
      elim (Bool-cases (any_equal (o.weakly_canonical file) c.included)) [
        | inl again ↦ rw again tt
        | inr new ↦ rw new (k.noted c (o.weakly_canonical file) new i)
      ]

  pub parse_single_file-kept :
      (depth : ℕ) (file : Bytes) (c : Configuration)
      → P c
      → Ensures P (parse_single_file t o depth file c)
  unfolding parse_single_file
  parse_single_file-kept zero file c i = tt
  parse_single_file-kept (suc depth) file c i =
      Ensures-bind P P _ _ (insert_included-kept file c i) λ c' i'. Ensures-any P _ _ λ secure.
        Ensures-any P _ _ λ text.
          parse_stream-kept _ text (o.parent_path file) c'
            (λ f d j. parse_single_file-kept depth f d j) i'
