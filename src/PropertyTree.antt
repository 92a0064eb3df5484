-- ===== src/PropertyTree.antt =====
-- What the code uses of Boost's property trees: the readers of XML and INI text, and the access to
-- a node by a dotted path.
use supervisorcpp.Prelude.{List, Option, ℤ, Bytes, Tried}

pub record PropertyTree : Type 1 where
  pub Tree : Type 0
  pub read_xml : Bytes → Tried Tree
  pub read_ini : Bytes → Tried Tree
  pub get_child_optional : Bytes → Tree → Option Tree
  pub get_string : Bytes → Tree → Option Bytes
  pub get_int : Bytes → Tree → Option ℤ
  -- The text of a node itself.
  pub get_value : Tree → Bytes
  -- The children in order, each with its key.
  pub children : Tree → List (Bytes × Tree)
  -- The text of the exception of a `get` of a path that is not there.
  pub bad_path : Bytes → Bytes
