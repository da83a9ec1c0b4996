-- ===== src/Names/Search.antt =====
-- src/vars_names.c: the searches in the table of the names.
use classicladder.Common.{
  ℤ, pos, negsuc, ◌+ℤ◌, ◌*ℤ◌, ◌==ℤ◌, ◌&&◌, not, ltb_ℤ, if◌then◌else◌, Bool, false, List, [], ◌∷◌,
  Option, none, some,
}
use classicladder.State.{Sizes}
use classicladder.Names.Table.{ConvIdVarName, table_conv_id_var_name}

-- the count of variables of a row
abbrev pub size_total : ConvIdVarName → ℤ
size_total c =
    let size = if ltb_ℤ (pos 0) (c.size2) then c.size1 *ℤ c.size2 else c.size1 in
    if ltb_ℤ (pos 0) (c.size3) then size *ℤ c.size3 else size

abbrev pub is_of_row : ℤ → ℤ → ConvIdVarName → Bool
is_of_row type id c =
    (c.type_var ==ℤ type) && not (ltb_ℤ id (c.id_var)) && ltb_ℤ id (c.id_var +ℤ size_total c)

unfoldable pub search_row : (ConvIdVarName → Bool) → List ConvIdVarName → Option ConvIdVarName
search_row test [] = none
search_row test (c ∷ rows) = let rest = search_row test rows in if test c then some c else rest

-- ConvIdVarEnPtrSurEleConv
unfoldable pub conv_id_var_en_ptr_sur_ele_conv : Sizes → ℤ → ℤ → Option ConvIdVarName
unfolding search_row
conv_id_var_en_ptr_sur_ele_conv z type id =
    search_row (is_of_row type id) (table_conv_id_var_name z)

unfoldable pub get_size_vars_for_type_var : Sizes → ℤ → ℤ
unfolding search_row
get_size_vars_for_type_var z type =
    elim (search_row (λ c. c.type_var ==ℤ type) (table_conv_id_var_name z)) [
      | none ↦ negsuc 0
      | some c ↦ size_total c
    ]

unfoldable pub test_var_is_read_write : Sizes → ℤ → ℤ → Bool
unfolding conv_id_var_en_ptr_sur_ele_conv
test_var_is_read_write z type id = elim (conv_id_var_en_ptr_sur_ele_conv z type id) [
  | none ↦ false
  | some c ↦ c.read_write_access
]
