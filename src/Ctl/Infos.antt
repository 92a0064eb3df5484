-- ===== src/Ctl/Infos.antt =====
-- supervisorctl.h: the process infos of a response, and how they are printed.
use supervisorcpp.Prelude.{
  ℕ, zero, suc, List, [], ◌∷◌, ◌++◌, Option, none, some, if◌then◌else◌, ℤ, minus_one, Bytes, codes,
  bytes_eq, Tried, returns, throws,
}
use supervisorcpp.PropertyTree.{PropertyTree}

-- `ProcessInfo` of the client.
pub record ProcessInfo : Type 0 where
  pub name : Bytes
  pub statename : Bytes
  pub pid : ℤ
  pub description : Bytes

abbrev pub or_text : Bytes → Option Bytes → Bytes
or_text value none = value
or_text value (some s) = s

-- `std::left << std::setw(width)`.
unfoldable pub padded : ℕ → Bytes → Bytes
padded zero s = s
padded (suc width) [] = b' ' ∷ padded width []
padded (suc width) (c ∷ s) = c ∷ padded width s

unfoldable pub show_process_info : ProcessInfo → Bytes
unfolding padded
show_process_info info =
    padded 20 info.name ++ (padded 15 info.statename ++ (info.description ++ codes "\n"))

unfoldable pub print_process_info : List ProcessInfo → Bytes
unfolding show_process_info
print_process_info [] = []
print_process_info (info ∷ r) = show_process_info info ++ print_process_info r

module _ (t : PropertyTree) where
  open t use {Tree, get_child_optional, get_string, get_int, children, bad_path}

  -- One member of the struct of `ProcessInfo::from`.
  unfoldable pub set_member : Bytes → Tree → ProcessInfo → ProcessInfo
  unfolding bytes_eq
  set_member name node info =
      if bytes_eq name (codes "name")
      then record info { name = or_text [] (get_string (codes "value.string") node) }
      else if bytes_eq name (codes "statename")
      then record info {
        statename = or_text (codes "UNKNOWN") (get_string (codes "value.string") node);
      }
      else if bytes_eq name (codes "pid")
      then record info {
        pid = elim (get_int (codes "value.int") node) [ none ↦ minus_one | some i ↦ i ];
      }
      else if bytes_eq name (codes "description")
      then record info { description = or_text [] (get_string (codes "value.string") node) }
      else info

  unfoldable pub set_members : List (Bytes × Tree) → ProcessInfo → Tried ProcessInfo
  unfolding set_member bytes_eq
  set_members [] info = returns info
  set_members ((key, node) ∷ r) info =
      let same = set_members r info in
      if bytes_eq key (codes "member")
      then elim (get_string (codes "name") node) [
        | none ↦ throws (bad_path (codes "name"))
        | some name ↦ set_members r (set_member name node info)
      ]
      else same

  -- `ProcessInfo::from`; the code leaves `pid` unset where no member gives it, `pid` is the value then.
  unfoldable pub info_from : ℤ → Tree → Tried ProcessInfo
  unfolding set_members
  info_from pid value = elim (get_child_optional (codes "struct") value) [
    | none ↦ throws (codes "ProcessInfo expected struct")
    | some members ↦
        set_members (children members)
          (record { name = []; statename = []; pid = pid; description = [] })
  ]

  unfoldable pub infos_from : ℤ → List (Bytes × Tree) → Tried (List ProcessInfo)
  unfolding info_from bytes_eq
  infos_from pid [] = returns []
  infos_from pid ((key, item) ∷ r) =
      let rest = infos_from pid r in
      if bytes_eq key (codes "value")
      then elim (info_from pid item) [
        | throws e ↦ throws e
        | returns info ↦ elim rest [ throws e ↦ throws e | returns infos ↦ returns (info ∷ infos) ]
      ]
      else rest

  abbrev value_path : Bytes
  value_path = codes "methodResponse.params.param.value"

  unfoldable pub parse_process_info : ℤ → Tree → Tried (List ProcessInfo)
  unfolding info_from
  parse_process_info pid tree = elim (get_child_optional value_path tree) [
    | none ↦ throws (bad_path value_path)
    | some value ↦ elim (info_from pid value) [
      | throws e ↦ throws e
      | returns info ↦ returns (info ∷ [])
    ]
  ]

  unfoldable pub parse_process_info_array : ℤ → Tree → Tried (List ProcessInfo)
  unfolding infos_from
  parse_process_info_array pid tree = elim (get_child_optional value_path tree) [
    | none ↦ throws (bad_path value_path)
    | some value ↦ elim (get_child_optional (codes "array.data") value) [
      | none ↦ returns []
      | some items ↦ infos_from pid (children items)
    ]
  ]
