-- ===== src/Config/Outside.antt =====
-- What the parser asks of the system and of `std::filesystem`, `std::regex` and Boost.Spirit.
use supervisorcpp.Prelude.{ℕ, Bool, List, Option, Bytes}
use supervisorcpp.Util.Secure.{FileStat}

pub record Outside : Type 0 where
  pub exists : Bytes → Bool
  pub is_directory : Bytes → Bool
  pub weakly_canonical : Bytes → Bytes
  pub canonical : Bytes → Option Bytes
  pub current_path : Bytes
  pub temp_directory_path : Bytes
  -- What the two gave when the allowed directories were asked for first: those are kept in `static`
  -- variables, and resolved only once in a run of the program.
  pub first_weakly_canonical : Bytes → Bytes
  pub first_temp_directory_path : Bytes
  pub parent_path : Bytes → Bytes
  pub filename : Bytes → Bytes
  pub join : Bytes → Bytes → Bytes
  -- The entries of a directory, each with `is_regular_file`.
  pub directory_iterator : Bytes → List (Bytes × Bool)
  -- The order of paths.
  pub sort : List Bytes → List Bytes
  -- A name against the text of an expression.
  pub regex_match : Bytes → Bytes → Bool
  pub lstat : Bytes → Option FileStat
  pub stat : Bytes → Option FileStat
  pub getuid : ℕ
  -- What a file holds, where it opens.
  pub contents : Bytes → Option Bytes
  -- The map of the grammar of `KEY=value` lists, in the order of its keys, where all of the text parses.
  pub environment_list : Bytes → Option (List (Bytes × Bytes))
