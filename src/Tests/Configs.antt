-- ===== src/Tests/Configs.antt =====
-- A configuration with one program, over a reader that knows its text.
use supervisorcpp.Prelude.{
  true, false, List, [], ◌∷◌, ◌++◌, Option, none, some, if◌then◌else◌, Bytes, codes, bytes_eq,
  begins, find_from, returns, throws, ◌≡◌, refl,
}
use supervisorcpp.PropertyTree.{PropertyTree}
use supervisorcpp.Process.Types.{ProgramConfig}
use supervisorcpp.Util.Secure.{valid, refused, FileStat}
use supervisorcpp.Config.Chain.{◌>>=◌}
use supervisorcpp.Config.Outside.{Outside}
use supervisorcpp.Config.Types.{Configuration}
use supervisorcpp.Config.Parser.{
  parse_file, parse_string, parse_single_file, include_files, strip_lines, default_configuration,
}
use supervisorcpp.Config.Program.{default_program}
use supervisorcpp.Config.Parser.Returned.{include_files-twice}

-- A section or a key, with its text and what is in it.
mutual
  pub data Node : Type 0 where
    node : Bytes → Nodes → Node

  pub data Nodes : Type 0 where
    leaf : Nodes
    branch : Bytes → Node → Nodes → Nodes

abbrev pub key : Bytes → Bytes → Nodes → Nodes
key name value r = branch name (node value leaf) r

unfoldable pub find_node : Bytes → Nodes → Option Node
unfolding bytes_eq
find_node name leaf = none
find_node name (branch k n r) = if bytes_eq k name then some n else find_node name r

abbrev pub below : Node → Nodes
below (node value r) = r

abbrev pub value_of : Node → Bytes
value_of (node value r) = value

unfoldable pub listed : Nodes → List (Bytes × Node)
listed leaf = []
listed (branch k n r) = (k, n) ∷ listed r

abbrev config_text : Bytes
config_text = codes "[program:web]\ncommand=/bin/web -p 80\nstopsignal=INT ; quick\n"

abbrev stripped_text : Bytes
stripped_text = codes "[program:web]\ncommand=/bin/web -p 80\nstopsignal=INT\n"

abbrev config_tree : Node
config_tree = node [] (
    branch (codes "program:web")
      (node [] (
        key (codes "command") (codes "/bin/web -p 80")
          (key (codes "stopsignal") (codes "INT") leaf)))
      leaf)

-- A reader of this one text.
abbrev pub reader : PropertyTree
reader = record {
  Tree = Node;
  read_xml = λ text. throws (codes "no XML");
  read_ini =
      λ text. if bytes_eq text stripped_text then returns config_tree else throws (codes "no INI");
  get_child_optional = λ path n. find_node path (below n);
  get_string =
      λ path n. elim (find_node path (below n)) [ none ↦ none | some m ↦ some (value_of m) ];
  get_int = λ path n. none;
  get_value = value_of;
  children = λ n. listed (below n);
  bad_path = λ path. path;
}

abbrev regular : FileStat
regular = record {
  is_regular = true;
  is_symlink = false;
  is_directory = false;
  owner = 0;
  world_writable = false;
  executable = true;
}

-- Every file holds the text, belongs to the user and can be executed.
abbrev pub system : Outside
system = record {
  exists = λ path. true;
  is_directory = λ path. false;
  weakly_canonical = λ path. path;
  canonical = λ path. some path;
  current_path = codes "/";
  temp_directory_path = codes "/tmp";
  first_weakly_canonical = λ path. path;
  first_temp_directory_path = codes "/tmp";
  parent_path = λ path. codes "/etc";
  filename = λ path. path;
  join = λ a b. a ++ b;
  directory_iterator = λ path. [];
  sort = λ l. l;
  regex_match = λ name file_regex. true;
  lstat = λ path. some regular;
  stat = λ path. some regular;
  getuid = 0;
  contents = λ path. some config_text;
  environment_list = λ text. none;
}

abbrev pub config_path : Bytes
config_path = codes "/etc/supervisord.conf"

abbrev pub web : ProgramConfig
web = record (default_program (codes "web")) {
  command = codes "/bin/web -p 80";
  stopsignal = codes "INT";
}

abbrev pub of_file : Configuration
of_file = record default_configuration {
  config_file = config_path;
  programs = web ∷ [];
  included = config_path ∷ [];
}

pub file_parsed : parse_file reader system config_path ≡ valid of_file
unfolding parse_file ◌>>=◌ find_node listed bytes_eq begins find_from
file_parsed = refl

include_files-twice_example :
    include_files
      (λ f d. parse_single_file reader system 9 f d)
      (config_path ∷ config_path ∷ [])
      default_configuration
    ≡ refused
include_files-twice_example =
    include_files-twice reader system 9 [] [] [] config_path config_path default_configuration refl

abbrev of_string : Configuration
of_string = record default_configuration { programs = web ∷ [] }

text_read : reader.read_ini (strip_lines [] config_text) ≡ returns config_tree
unfolding strip_lines bytes_eq
text_read = refl

string_parsed : parse_string reader system config_text ≡ valid of_string
unfolding parse_string ◌>>=◌ find_node listed bytes_eq begins find_from
string_parsed = refl
