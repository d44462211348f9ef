-- ===== src/Globals/Tests.antt =====
-- The globals of a module with an imported global and a local one.
use wirm.Base.{ℕ, zero, suc, ◌≡◌, refl, sym, ap, true, false, none, some, [], ◌∷◌, get_elem?, arith}
use mathlib.Core.Option.{some-injective}
use wirm.Base.Results.{ok, value}
use wirm.ModuleIr.Imports.{default_imports}
use wirm.ModuleIr.Globals.{Global, local_global, import_global, id_of_kind}
use wirm.Globals.{Host, global_import, add_imported_global, delete_global, mod_global_init_expr}
use wirm.Globals.Laws.{
  AreNumbered, IsValid, IsImportDeleted, new_imported, add_imported_global-IsValid,
  delete_global-IsValid,
}
use mathlib.Core.Option

abbrev base_ptr : Global ℕ ℕ
base_ptr = record {
  kind = import_global (record { import_id = 0; import_global_id = 0; ty = 5 });
  deleted = false;
}

abbrev counter : ℕ → Global ℕ ℕ
counter start = record {
  kind = local_global (record { global_id = 1; ty = 5; init_expr = start });
  deleted = false;
}

abbrev host : Host ℕ ℕ ℕ
host = record {
  imports = record default_imports { imports = global_import "env" "base" ∷ []; num_globals = 1 };
  functions = record { functions = []; recalculate_ids = false };
  globals = record { globals = base_ptr ∷ counter 3 ∷ []; recalculate_ids = false };
  memories = [];
  num_local_functions = 0;
  num_local_globals = 1;
  num_local_memories = 0;
}

-- The initial expression of a local global is changed, and that of an imported one is not.
mod_global_init_expr_run :
    Option.map (λ m. m.globals.globals) (value (mod_global_init_expr host 1 8))
    ≡ some (base_ptr ∷ counter 8 ∷ [])
unfolding mod_global_init_expr
mod_global_init_expr_run = refl

mod_global_init_expr_refused : value (mod_global_init_expr host 0 8) ≡ none
unfolding mod_global_init_expr
mod_global_init_expr_refused = refl

host_numbered : AreNumbered (base_ptr ∷ counter 3 ∷ [])
host_numbered zero g h = ap (λ x. id_of_kind x.kind) (some-injective _ _ (sym h))
host_numbered (suc zero) g h = ap (λ x. id_of_kind x.kind) (some-injective _ _ (sym h))
host_numbered (suc (suc p)) g h = cc

host-IsValid : IsValid host
host-IsValid = record { in_step = λ e. cc; numbered = host_numbered }

add_imported_global-IsValid_example :
    (id imp_id : ℕ) × (m' : Host ℕ ℕ ℕ) × (add_imported_global host "env" "limit" 6
      ≡ ok ((id, imp_id), m'))
    × IsValid m'
    × (get_elem? m'.globals.globals id ≡ some (new_imported host 6))
    × (get_elem? m'.imports.imports imp_id ≡ some (global_import "env" "limit"))
add_imported_global-IsValid_example = add_imported_global-IsValid host "env" "limit" 6 host-IsValid

delete_global-IsValid_example :
    (m' : Host ℕ ℕ ℕ) × (delete_global host 0 ≡ ok m')
    × IsValid m'
    × (get_elem? m'.globals.globals 0 ≡ some (record { kind = base_ptr.kind; deleted = true }))
    × IsImportDeleted m' base_ptr.kind
delete_global-IsValid_example =
    delete_global-IsValid host 0 base_ptr.kind false host-IsValid refl (omega arith)
