-- ===== src/Config/Parser/Returned.antt =====
-- config_parser.cpp: the configurations that the parser returns, and repeated files.
use supervisorcpp.Prelude.{
  ℕ, zero, suc, true, false, List, [], ◌∷◌, ◌++◌, Bytes, All, All-append, ◌≡◌, ◌≢◌, refl, sym, ◌∙◌,
  inl, inr, Bool-cases, if-either, subst, ap, ◌||◌, bytes_eq_iff, arith,
}
use supervisorcpp.PropertyTree.{PropertyTree}
use supervisorcpp.Util.Secure.{Checked, valid, refused, any_equal}
use supervisorcpp.Process.Types.{ProgramConfig}
use supervisorcpp.Config.Chain.{
  ◌>>=◌, Ensures-bind, Ensures-valid, Ensures, Ensures-any, Ensures-imp, Ensures-self, bind_refused,
}
use supervisorcpp.Config.Outside.{Outside}
use supervisorcpp.Config.Types.{Configuration}
use supervisorcpp.Config.Parser.{
  include_files, insert_included, parse_single_file, parse_file, validate_config, validate_settings,
  max_depth, default_configuration,
}
use supervisorcpp.Config.Parser.Accepted.{IsAccepted}
use supervisorcpp.Config.Parser.Kept.{IsKept, parse_single_file-kept, parse_stream-kept}

-- No path stands twice in the list.
unfoldable pub IsDistinct : List Bytes → Type 0
IsDistinct [] = Unit
IsDistinct (x ∷ r) = (any_equal x r ≡ false) × IsDistinct r

-- What the parser keeps of the configuration that it builds.
pub record IsParsed (o : Outside) (name : Bytes) (c : Configuration) : Type 0 where
  pub programs_accepted : All (IsAccepted o) c.programs
  pub file_kept : c.config_file ≡ name
  pub included_once : IsDistinct c.included

IsParsed-IsKept : (o : Outside) (name : Bytes) → IsKept o (IsParsed o name)
unfolding IsDistinct
IsParsed-IsKept o name = record {
  settings = λ c u s i. record {
    programs_accepted = i.programs_accepted;
    file_kept = i.file_kept;
    included_once = i.included_once;
  };
  program = λ c p accepted i. record {
    programs_accepted =
        All-append (IsAccepted o) c.programs (p ∷ []) i.programs_accepted (accepted, tt);
    file_kept = i.file_kept;
    included_once = i.included_once;
  };
  noted = λ c f new i. record {
    programs_accepted = i.programs_accepted;
    file_kept = i.file_kept;
    included_once = (new, i.included_once);
  };
}

-- What `validate_config_` looks for.
abbrev pub HasSettings : Configuration → Type 0
HasSettings c = (c.unix_http_server.socket_file ≢ []) × (c.supervisord.logfile ≢ [])

validate_settings-set :
    (socket logfile : Bytes) (programs : List ProgramConfig)
    → validate_settings socket logfile programs ≡ valid tt
    → (socket ≢ []) × (logfile ≢ [])
unfolding validate_settings
validate_settings-set [] logfile programs e = absurd (cc e)
validate_settings-set (_ ∷ _) [] programs e = absurd (cc e)
validate_settings-set (_ ∷ _) (_ ∷ _) programs e = (λ h. cc h, λ h. cc h)

validate_config-HasSettings : (c : Configuration) → validate_config c ≡ valid tt → HasSettings c
unfolding validate_config
validate_config-HasSettings c e = validate_settings-set _ _ c.programs e

-- What `parse_file` does with a file that exists.
abbrev parse_there : PropertyTree → Outside → Bytes → Checked Configuration
parse_there t o file = do
  config ←
      parse_single_file t o max_depth file
        (record default_configuration { config_file = o.weakly_canonical file })
  _ ← validate_config config
  valid config

parse_file-there :
    (t : PropertyTree) (o : Outside) (file : Bytes)
    → o.exists file ≡ true
    → parse_file t o file ≡ parse_there t o file
unfolding parse_file
parse_file-there t o file there = rw there refl

parse_file-absent :
    (t : PropertyTree) (o : Outside) (file : Bytes)
    → o.exists file ≡ false
    → parse_file t o file ≡ refused
unfolding parse_file
parse_file-absent t o file absent = rw absent refl

pub parse_file-IsParsed :
    (t : PropertyTree) (o : Outside) (file : Bytes) (c : Configuration)
    → parse_file t o file ≡ valid c
    → (o.exists file ≡ true) × (IsParsed o (o.weakly_canonical file) c × HasSettings c)
unfolding IsDistinct
parse_file-IsParsed t o file c e = elim (Bool-cases (o.exists file)) [
  | inr absent ↦ absurd (cc (sym (parse_file-absent t o file absent) ∙ e))
  | inl there ↦
      let name = o.weakly_canonical file in
      let Q : Configuration → Type 0 = λ c. IsParsed o name c × HasSettings c in
      let start : IsParsed o name (record default_configuration { config_file = name }) = record {
        programs_accepted = tt;
        file_kept = refl;
        included_once = tt;
      } in
      let parsed =
        parse_single_file-kept t o (IsParsed o name) (IsParsed-IsKept o name) max_depth file _
          start in
      (
        there,
        Ensures-valid Q _ c
            (Ensures-bind (IsParsed o name) Q _ _ parsed λ d i.
              Ensures-bind (λ u. validate_config d ≡ valid u) Q _ _ (Ensures-self _)
                λ u checked. (i, validate_config-HasSettings d checked))
            (sym (parse_file-there t o file there) ∙ e),
      )
]

-- A file that was noted stays noted.
noted-IsKept : (o : Outside) (x : Bytes) → IsKept o (λ c. any_equal x c.included ≡ true)
unfolding any_equal
noted-IsKept o x = record {
  settings = λ c u s i. i;
  program = λ c p accepted i. i;
  noted = λ c f new i. ground (arith, i);
}

parse_single_file-again :
    (t : PropertyTree) (o : Outside) (depth : ℕ) (file : Bytes) (c : Configuration)
    → any_equal (o.weakly_canonical file) c.included ≡ true
    → parse_single_file t o depth file c ≡ refused
unfolding parse_single_file insert_included ◌>>=◌
parse_single_file-again t o zero file c again = refl
parse_single_file-again t o (suc depth) file c again = rw again refl

-- Behind the reading of a file, it is noted.
parse_single_file-noted :
    (t : PropertyTree) (o : Outside) (depth : ℕ) (file : Bytes) (c : Configuration)
    → Ensures
        (λ d. any_equal (o.weakly_canonical file) d.included ≡ true)
        (parse_single_file t o depth file c)
unfolding parse_single_file insert_included any_equal
parse_single_file-noted t o zero file c = tt
parse_single_file-noted t o (suc depth) file c =
    let x = o.weakly_canonical file in
    let P : Configuration → Type 0 = λ d. any_equal x d.included ≡ true in
    Ensures-bind P P _ _
      (if-either (Ensures P) (any_equal x c.included) _ _ tt
        (ap (λ b. b || any_equal x c.included) ((bytes_eq_iff x x).1 refl)))
      λ d noted. Ensures-any P _ _ λ u. Ensures-any P _ _ λ text.
        parse_stream-kept t o P (noted-IsKept o x) _ text (o.parent_path file) d
          (λ f e j. parse_single_file-kept t o P (noted-IsKept o x) depth f e j) noted

include_files-again :
    (t : PropertyTree) (o : Outside) (depth : ℕ) (before after : List Bytes) (file : Bytes)
    (c : Configuration)
    → any_equal (o.weakly_canonical file) c.included ≡ true
    → include_files (λ f d. parse_single_file t o depth f d) (before ++ file ∷ after) c ≡ refused
unfolding include_files ◌>>=◌
include_files-again t o depth [] after file c again =
    rw (parse_single_file-again t o depth file c again) refl
include_files-again t o depth (b ∷ before) after file c again =
    let Q : Configuration → Type 0 = λ d. any_equal (o.weakly_canonical file) d.included ≡ true in
    bind_refused Q (parse_single_file t o depth b c) _
      (parse_single_file-kept t o Q (noted-IsKept o (o.weakly_canonical file)) depth b c again)
      (λ d noted. include_files-again t o depth before after file d noted)

-- Two files of one pattern of an `include` section that resolve to one path: the reading of the
-- pattern's files is refused, whatever files stand before, between and after them, whatever those hold
-- and however deep the section is.
pub include_files-twice :
    (t : PropertyTree) (o : Outside) (depth : ℕ) (before between after : List Bytes)
    (file again : Bytes) (c : Configuration)
    → o.weakly_canonical file ≡ o.weakly_canonical again
    → include_files
        (λ f d. parse_single_file t o depth f d)
        (before ++ file ∷ (between ++ again ∷ after))
        c
      ≡ refused
unfolding include_files ◌>>=◌
include_files-twice t o depth [] between after file again c same =
    bind_refused (λ d. any_equal (o.weakly_canonical file) d.included ≡ true)
      (parse_single_file t o depth file c) _ (parse_single_file-noted t o depth file c)
      (λ d noted.
        include_files-again t o depth between after again d
          (subst (λ x. any_equal x d.included ≡ true) same noted))
include_files-twice t o depth (b ∷ before) between after file again c same =
    bind_refused (λ d. Unit) (parse_single_file t o depth b c) _
      (Ensures-imp (λ d. parse_single_file t o depth b c ≡ valid d) (λ d. Unit) _ (λ d e. tt)
        (Ensures-self _))
      (λ d u. include_files-twice t o depth before between after file again d same)
