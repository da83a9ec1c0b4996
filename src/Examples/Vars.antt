-- ===== src/Examples/Vars.antt =====
-- Variables: src/vars_access.c.
use classicladder.Common.{pos, ◌%◌, ◌≡◌, refl, inl, true, to_uchar}
use classicladder.State.{VarType}
use classicladder.Vars.{read_var, write_var, set_var, is_var_set, get_nbr_vars_for_type}
use classicladder.Vars.RoundTrip.{stored, read_var-write_var, read_var-write_var_ne}
use classicladder.Vars.Forced.{read_var-set_var}
use classicladder.Examples.Blank.{blank}

read_var-write_var_example :
    read_var (write_var blank VarType.mem_bit (pos 3) (pos 300)) VarType.mem_bit (pos 3)
    ≡ stored VarType.mem_bit (pos 300)
unfolding is_var_set
read_var-write_var_example = read_var-write_var blank VarType.mem_bit (pos 3) (pos 300) refl refl

read_var-write_var_ne_example :
    read_var (write_var blank VarType.mem_bit (pos 9) (pos 1)) VarType.phys_input (pos 0)
    ≡ read_var blank VarType.phys_input (pos 0)
unfolding get_nbr_vars_for_type
read_var-write_var_ne_example =
    read_var-write_var_ne blank VarType.mem_bit VarType.phys_input 9 0 (pos 1) refl refl
      (inl (λ e. cc))

read_var-set_var_example :
    let s' =
      write_var
        (set_var blank VarType.phys_input (pos 2) (pos 1))
        VarType.phys_input
        (pos 2)
        (pos 0) in
    (is_var_set s' VarType.phys_input (pos 2) ≡ true)
    × (read_var s' VarType.phys_input (pos 2) ≡ pos (to_uchar (pos 1) % 2))
read_var-set_var_example =
    read_var-set_var blank VarType.phys_input VarType.phys_input (pos 2) (pos 2) (pos 1) (pos 0)
      refl
