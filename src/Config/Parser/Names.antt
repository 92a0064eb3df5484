-- ===== src/Config/Parser/Names.antt =====
-- config_parser.cpp: the programs and the sections they come from.
use supervisorcpp.Prelude.{
  ◌-◌, if◌then◌else◌, List, [], ◌∷◌, ◌++◌, Option, none, some, Bytes, codes, begins, drop, map,
  returns, append_assoc, append-nil, ◌≡◌, refl, sym, ap, ◌∙◌, inl, inr, Bool-cases, subst,
}
use supervisorcpp.PropertyTree.{PropertyTree}
use supervisorcpp.Process.Types.{ProgramConfig}
use supervisorcpp.Util.Secure.{Checked, valid}
use supervisorcpp.Config.Chain.{
  Ensures, Ensures-bind, Ensures-any, Ensures-valid, Ensures-imp, of_tried,
}
use supervisorcpp.Config.Outside.{Outside}
use supervisorcpp.Config.Types.{Configuration}
use supervisorcpp.Config.Parser.{
  parse_programs, parse_include_section, parse_stream, parse_string, strip_lines, parse_single_file,
  max_depth, default_configuration,
}
use supervisorcpp.Config.Program.{check_program, read_program}

-- The names behind `program:`, in the order of the sections.
unfoldable pub program_names {ℓ} : {A : Type ℓ} → List (Bytes × A) → List Bytes
program_names [] = []
program_names ((key, _) ∷ r) =
    let rest = program_names r in if begins (codes "program:") key then drop 8 key ∷ rest else rest

abbrev pub names : List ProgramConfig → List Bytes
names = map (λ p. p.name)

names-append : (a b : List ProgramConfig) → names (a ++ b) ≡ names a ++ names b
names-append [] b = refl
names-append (p ∷ a) b = ap (◌∷◌ p.name) (names-append a b)

module _ (t : PropertyTree) (o : Outside) where
  open t use {Tree, children, read_ini}

  read_program-name :
      (name : Bytes) (tree : Tree) → Ensures (λ p. p.name ≡ name) (read_program t o name tree)
  unfolding read_program
  read_program-name name tree =
      let P : ProgramConfig → Type 0 = λ p. p.name ≡ name in
      Ensures-any P _ _ λ command. Ensures-any P _ _ λ given. Ensures-any P _ _ λ environment.
        Ensures-any P _ _ λ autorestart. Ensures-any P _ _ λ redirect_stderr.
          Ensures-any P _ _ λ startretries. Ensures-any P _ _ λ startsecs.
            Ensures-any P _ _ λ stderr_maxbytes. Ensures-any P _ _ λ stderr_backups.
              Ensures-any P _ _ λ stdout_maxbytes. Ensures-any P _ _ λ stdout_backups.
                Ensures-any P _ _
                  λ stopsignal. Ensures-any P _ _ λ stopwaitsecs. Ensures-any P _ _ λ umask. refl

  check_program-name : (p : ProgramConfig) → Ensures (λ q. q.name ≡ p.name) (check_program o p)
  unfolding check_program
  check_program-name p =
      let P : ProgramConfig → Type 0 = λ q. q.name ≡ p.name in
      Ensures-any P _ _ λ u. Ensures-any P _ _ λ out. Ensures-any P _ _ λ err. refl

  parse_programs-names :
      (sections : List (Bytes × Tree)) (c : Configuration)
      → Ensures
          (λ d. names d.programs ≡ names c.programs ++ program_names sections)
          (parse_programs t o sections c)
  unfolding parse_programs program_names
  parse_programs-names [] c = sym (append-nil (names c.programs))
  parse_programs-names ((key, value) ∷ r) c = elim (Bool-cases (begins (codes "program:") key)) [
    | inr other ↦ rw other (parse_programs-names r c)
    | inl program ↦
        let P : Configuration → Type 0 =
          λ d. names d.programs ≡ names c.programs ++ (drop 8 key ∷ program_names r) in
        rw program (
          Ensures-bind (λ p. p.name ≡ drop 8 key) P _ _ (read_program-name (drop 8 key) value)
            λ p named.
              Ensures-bind (λ q. q.name ≡ p.name) P _ _ (check_program-name p)
                λ q same.
                  Ensures-imp _ P _
                    (λ d e.
                      e
                      ∙ ap (λ l. l ++ program_names r)
                          (names-append c.programs (q ∷ [])
                            ∙ ap (λ n. names c.programs ++ n ∷ []) (same ∙ named))
                      ∙ append_assoc (names c.programs) (drop 8 key ∷ []) (program_names r))
                    (parse_programs-names r (record c { programs = c.programs ++ q ∷ [] })))
  ]

  -- Without a directory nothing is included.
  parse_include_section-none :
      (include : Bytes → Configuration → Checked Configuration) (section : Option Tree)
      (c : Configuration)
      → c.programs ≡ []
      → Ensures (λ d. d.programs ≡ []) (parse_include_section t o include [] section c)
  unfolding parse_include_section
  parse_include_section-none include none c h = h
  parse_include_section-none include (some s) c h = h

  parse_stream-names :
      (include : Bytes → Configuration → Checked Configuration) (text : Bytes) (tree : Tree)
      → read_ini (strip_lines [] text) ≡ returns tree
      → Ensures
          (λ d. names d.programs ≡ program_names (children tree))
          (parse_stream t o include text [] default_configuration)
  unfolding parse_stream
  parse_stream-names include text tree e =
      let P : Configuration → Type 0 = λ d. names d.programs ≡ program_names (children tree) in
      Ensures-bind (λ tr. tr ≡ tree) P _ _
        (subst (λ m. Ensures (λ tr. tr ≡ tree) (of_tried m)) (sym e) refl)
        λ tr same. Ensures-any P _ _ λ supervisord.
          Ensures-bind (λ d. d.programs ≡ []) P _ _ (parse_include_section-none include _ _ refl)
            λ d no_programs.
              Ensures-imp _ P _
                (λ d' f.
                  f
                  ∙ ap (λ l. names l ++ program_names (children tr)) no_programs
                  ∙ ap (λ s. program_names (children s)) same)
                (parse_programs-names (children tr) d)

  -- A configuration that `parse_string` returns has one program for each section `program:name` of
  -- the text, with that name and in the order of the sections, and no others: an `include` section
  -- adds none.
  parse_string-names :
      (text : Bytes) (tree : Tree) (c : Configuration)
      → read_ini (strip_lines [] text) ≡ returns tree
      → parse_string t o text ≡ valid c
      → names c.programs ≡ program_names (children tree)
  unfolding parse_string
  parse_string-names text tree c e returned =
      let P : Configuration → Type 0 = λ d. names d.programs ≡ program_names (children tree) in
      Ensures-valid P _ c
        (Ensures-bind P P _ _
          (parse_stream-names (parse_single_file t o (max_depth - 1)) text tree e)
          λ d named. Ensures-any P _ _ λ u. named)
        returned
