-- ===== src/Shm/Tests.antt =====
-- Runs of l_builtin/src/cmd_shm.rs.
use l_builtin.Base.{◌≡◌, ◌≢◌, refl, none, some, [], ◌∷◌, ◌++◌, Bytes, ok, if◌then◌else◌, arith}
use l_builtin.Base.Int.{ℤ, pos}
use l_builtin.Base.Assoc.{Assoc, bytes_key, get, put}
use l_builtin.IntStr.{as_bytes, to_intstr}
use l_builtin.VarDb.{as_array, DatabaseRepr, VarData, int_key}
use l_builtin.Shm.Place.{ShmLocArgs, parse_mmap_spec}
use l_builtin.Shm.Selected.{parse_mmap_spec-to_intstr}
use l_builtin.Shm.Tables.{IsMap, rebuild}
use l_builtin.Shm.State.{Shell, Variable}
use l_builtin.Shm.Callbacks.{shm_array_getter, shm_array_setter}
use l_builtin.Shm.Commands.{bind_var}
use l_builtin.Shm.Withdrawal.{unbind_var, unbind_registry_vars}
use l_builtin.Shm.Print.{print_var_assignment}
use l_builtin.Shm.Rebuilt.{get-rebuild}
use l_builtin.Shm.Shown.{HasArray, shm_array_setter-getter, array_in}
use l_builtin.Shm.Left.{IsLeft, unbind_var-IsLeft}
use l_builtin.Shm.Cleared.{has_key, unbind_registry_vars-get}
use l_builtin.Shm.Preserved.{bind_p, Keeps, bind_var-Keeps}
use l_builtin.Shm.Reader.{read_elements}
use l_builtin.Shm.Printed.{print_var_assignment-read_elements}
use l_builtin.Shm.Sample.{
  Cells, small_table, small_table-laws, small_bash, small_bash-laws, memory_store,
  memory_store_laws,
}

abbrev table_text : Bytes
table_text = b'M' ∷ []

abbrev flags : ShmLocArgs
flags = record { s = none; n = none; m = some (b'M' ∷ b':' ∷ b'2' ∷ b'0' ∷ b'0' ∷ []); f = none }

parse_mmap_spec-to_intstr_example :
    parse_mmap_spec ((b'M' ∷ []) ++ b':' ∷ as_bytes (to_intstr 64 200)) ≡ ok ((b'M' ∷ []), some 200)
parse_mmap_spec-to_intstr_example = parse_mmap_spec-to_intstr b'M' [] 200 (refl, tt) (omega arith)

abbrev old_array : Assoc ℤ Bytes
old_array = (pos 0, b'a' ∷ []) ∷ (pos 3, b'd' ∷ []) ∷ []

old_once : IsMap old_array
unfolding get
old_once = (refl, (refl, tt))

abbrev new_array : Assoc ℤ Bytes
new_array = (pos 1, b'b' ∷ []) ∷ (pos 0, b'z' ∷ []) ∷ []

new_once : IsMap new_array
unfolding get
new_once = (refl, (refl, tt))

get-rebuild_example :
    get (rebuild small_table new_array (old_array, old_once)).0 (pos 3) ≡ get new_array (pos 3)
get-rebuild_example =
    get-rebuild small_table small_table-laws new_array (old_array, old_once) (pos 3) new_once

abbrev var : Bytes
var = b'V' ∷ []

abbrev repr : DatabaseRepr
repr = record { vars = (var, VarData.array new_array) ∷ [] }

abbrev shell : Shell Cells DatabaseRepr
shell = record {
  registry = (var, 1) ∷ [];
  bash = (var, Variable.indexed (old_array, old_once)) ∷ [];
  world = repr;
  printed = [];
}

abbrev other_shell : Shell Cells DatabaseRepr
other_shell = record shell {
  world = (shm_array_setter small_bash memory_store var (some (b'x' ∷ [])) (pos 7) shell).world;
}

shm_array_setter-getter_example :
    HasArray small_bash memory_store small_bash-laws memory_store_laws
      (shm_array_getter small_bash memory_store var other_shell)
      var
      (put (array_in repr var) (pos 7) (b'x' ∷ []))
unfolding get as_array
shm_array_setter-getter_example =
    shm_array_setter-getter small_bash memory_store small_bash-laws memory_store_laws shell
      other_shell var (b'x' ∷ []) (pos 7) 1 repr (old_array, old_once) (old_array, old_once)
      (refl, refl) refl tt new_once refl refl refl

unbind_var-IsLeft_example :
    IsLeft small_bash memory_store small_bash-laws memory_store_laws var 1 repr
      (VarData.array new_array)
      (unbind_var small_bash memory_store var shell)
unfolding get
unbind_var-IsLeft_example =
    unbind_var-IsLeft small_bash memory_store small_bash-laws memory_store_laws var 1 repr
      (VarData.array new_array) shell refl refl refl new_once (_, refl)

abbrev key : Bytes
key = b'm' ∷ b'e' ∷ b'm' ∷ b'f' ∷ b'd' ∷ b':' ∷ b'D' ∷ []

abbrev lossless : Bytes → Bytes
lossless text = text

unbind_registry_vars-get_example :
    let gone = has_key small_bash memory_store lossless key repr (get shell.registry var) in
    let after = unbind_registry_vars small_bash memory_store lossless key shell in
    (get after.registry var ≡ (if gone then none else get shell.registry var))
    × (get after.bash var ≡ (if gone then none else get shell.bash var))
unfolding get
unbind_registry_vars-get_example =
    unbind_registry_vars-get small_bash memory_store lossless small_bash-laws key shell var
      (refl, tt)

abbrev plain_shell : Shell Cells DatabaseRepr
plain_shell = record shell { registry = [] }

bind_var-Keeps_example :
    Keeps small_bash memory_store small_bash-laws memory_store_laws var 1 repr
      (old_array, old_once)
      ([], tt)
      (bind_var small_bash memory_store (bind_p flags []) 1 var plain_shell)
unfolding get put
bind_var-Keeps_example =
    bind_var-Keeps small_bash memory_store small_bash-laws memory_store_laws var 1 repr
      (old_array, old_once) ([], tt) flags [] plain_shell _ refl refl refl refl refl tt

abbrev quoted_map : Assoc Bytes Bytes
quoted_map = ((b'"' ∷ []), b'\\' ∷ b'a' ∷ []) ∷ ((b'k' ∷ []), []) ∷ []

quote_key : ◌≢◌ {A = Bytes} (b'"' ∷ []) []
quote_key e = cc

other_key : ◌≢◌ {A = Bytes} (b'k' ∷ []) []
other_key e = cc

print_var_assignment-read_elements_example :
    (text : Bytes) × (print_var_assignment var (VarData.assoc quoted_map)
      ≡ var ++ (b'=' ∷ b'(' ∷ text))
    × (read_elements 3 text ≡ some quoted_map)
print_var_assignment-read_elements_example =
    print_var_assignment-read_elements var quoted_map 2 (omega arith)
      (((quote_key, (refl, tt)), (refl, (refl, tt))), (((other_key, (refl, tt)), tt), tt))
