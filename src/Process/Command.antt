-- ===== src/Process/Command.antt =====
-- process.cpp, `parse_command_`: the command line into arguments.
use supervisorcpp.Prelude.{
  ℕ, Bool, true, false, not, ◌&&◌, List, [], ◌∷◌, ◌++◌, ◌==◌, if◌then◌else◌, ◌≡◌, ◌≢◌, refl, ap,
  ◌∙◌, arith, Bytes, All, All-append, append_assoc, append-nil,
}

-- The loop's variables.
pub record Scan : Type 0 where
  pub args : List Bytes
  pub current : Bytes
  pub in_quotes : Bool
  pub escape_next : Bool

abbrev initial : Scan
initial = record { args = []; current = []; in_quotes = false; escape_next = false }

-- `if (!current.empty()) { args.push_back(current); current.clear(); }`.
abbrev flush_current : Scan → Scan
flush_current s = elim s.current [
  | [] ↦ s
  | x ∷ r ↦ record s { args = s.args ++ (x ∷ r) ∷ []; current = [] }
]

unfoldable pub scan_char : Scan → ℕ → Scan
scan_char s c =
    if s.escape_next
    then record s { current = s.current ++ c ∷ []; escape_next = false }
    else if c == b'\\'
    then record s { escape_next = true }
    else if c == b'"'
    then record s { in_quotes = not s.in_quotes }
    else if c == b' ' && not s.in_quotes
    then flush_current s
    else record s { current = s.current ++ c ∷ [] }

unfoldable pub scan_all : Scan → Bytes → Scan
unfolding scan_char
scan_all s [] = s
scan_all s (c ∷ cs) = scan_all (scan_char s c) cs

unfoldable pub parse_command : Bytes → List Bytes
unfolding scan_all
parse_command command = (flush_current (scan_all initial command)).args

-- An argument in quotes, with a backslash before each quote and each backslash.
unfoldable pub escaped : Bytes → Bytes
escaped [] = []
escaped (c ∷ cs) =
    if c == b'\\'
    then b'\\' ∷ c ∷ escaped cs
    else if c == b'"'
    then b'\\' ∷ c ∷ escaped cs
    else c ∷ escaped cs

unfoldable pub quoted : Bytes → Bytes
unfolding escaped
quoted a = b'"' ∷ (escaped a ++ b'"' ∷ [])

-- The arguments in quotes, with a space behind each.
unfoldable pub command_line : List Bytes → Bytes
unfolding quoted
command_line [] = []
command_line (a ∷ r) = quoted a ++ (b' ' ∷ command_line r)

scan_all-escaped :
    (a : Bytes) (s : Scan) (rest : Bytes)
    → s.in_quotes ≡ true
    → s.escape_next ≡ false
    → scan_all s (escaped a ++ rest) ≡ scan_all (record s { current = s.current ++ a }) rest
unfolding scan_all escaped
scan_all-escaped [] s rest q e = rw append-nil
scan_all-escaped (c ∷ cs) s rest q e = ground (
  arith,
  scan_all-escaped cs (record s { current = s.current ++ c ∷ [] }) rest q e,
  append_assoc s.current (c ∷ []) cs,
)

abbrev pub NonEmpty : Bytes → Type 0
NonEmpty a = a ≢ []

-- Between two arguments.
abbrev between : List Bytes → Scan
between args = record { args = args; current = []; in_quotes = false; escape_next = false }

scan_all-quoted :
    (a : Bytes) (args : List Bytes) (rest : Bytes)
    → a ≢ []
    → scan_all (between args) (quoted a ++ (b' ' ∷ rest)) ≡ scan_all (between (args ++ a ∷ [])) rest
unfolding scan_all quoted
scan_all-quoted [] args rest n = absurd (n refl)
scan_all-quoted (x ∷ a) args rest n =
    let inside : Scan = record {
      args = args;
      current = [];
      in_quotes = true;
      escape_next = false;
    } in
    rw (append_assoc (escaped (x ∷ a)) (b'"' ∷ []) (b' ' ∷ rest))
      (scan_all-escaped (x ∷ a) inside (b'"' ∷ b' ' ∷ rest) refl refl)

scan_all-command_line :
    (l args : List Bytes)
    → All NonEmpty l
    → scan_all (between args) (command_line l) ≡ between (args ++ l)
unfolding command_line scan_all
scan_all-command_line [] args h = rw append-nil
scan_all-command_line (a ∷ r) args h =
    scan_all-quoted a args (command_line r) h.0
    ∙ scan_all-command_line r (args ++ a ∷ []) h.1
    ∙ ap between (append_assoc args (a ∷ []) r)

-- Quoted and escaped, any list of non-empty arguments, whatever bytes they hold, is parsed back.
pub parse_command-command_line :
    (l : List Bytes) → All NonEmpty l → parse_command (command_line l) ≡ l
unfolding parse_command
parse_command-command_line l h = ap (λ s. (flush_current s).args) (scan_all-command_line l [] h)

flush_current-All :
    (s : Scan) (word : Bytes)
    → s.current ≡ word
    → All NonEmpty s.args
    → All NonEmpty (flush_current s).args
flush_current-All s [] e h = rw e h
flush_current-All s (x ∷ r) e h = rw e (All-append NonEmpty s.args ((x ∷ r) ∷ []) h ((λ n. cc), tt))

scan_char-All : (s : Scan) (c : ℕ) → All NonEmpty s.args → All NonEmpty (scan_char s c).args
unfolding scan_char
scan_char-All s c h = ground (arith, flush_current-All s s.current refl h)

scan_all-All : (cs : Bytes) (s : Scan) → All NonEmpty s.args → All NonEmpty (scan_all s cs).args
unfolding scan_all
scan_all-All [] s h = h
scan_all-All (c ∷ cs) s h = scan_all-All cs (scan_char s c) (scan_char-All s c h)

-- No argument that `parse_command_` returns is empty, also where the line has `""`.
pub parse_command-All : (command : Bytes) → All NonEmpty (parse_command command)
unfolding parse_command
parse_command-All command =
    let s = scan_all initial command in
    flush_current-All s s.current refl (scan_all-All command initial tt)
