-- ===== src/Globals.antt =====
-- ir/module/mod.rs: adding and deleting the globals of a module. A tag is not modelled, and the
-- content type and the two flags of a global are its `ty`.
pub mod Laws
mod Tests
use wirm.Base.{ℕ, suc, true, false, none}
use wirm.Base.Results.{Result, ok, ◌>>=◌}
use wirm.ModuleIr.Imports.{Import, global_type}
use wirm.ModuleIr.Imports
use wirm.ModuleIr.Globals.{
  Global, GlobalKind, local_global, import_global, LocalGlobal, ImportedGlobal, add, delete,
  get_kind, mod_init_expr,
}
use wirm.ModuleIr.{ModuleIr, add_import}
use Prim.Native.String.{String}

abbrev pub global_import : String → String → Import
global_import module_name name = record {
  module_name = module_name;
  name = name;
  ty = global_type;
  custom_name = none;
  deleted = false;
}

abbrev pub Host : (T E M : Type 0) → Type 0
Host T E M = ModuleIr (Global T E) M

module _ {T E M : Type 0} where
  unfoldable pub add_global_internal : Host T E M → Global T E → ℕ × Host T E M
  unfolding add
  add_global_internal m global = (
    (add m.globals global).0,
    record m { num_local_globals = suc m.num_local_globals; globals = (add m.globals global).1 },
  )

  unfoldable pub add_global : Host T E M → E → T → ℕ × Host T E M
  unfolding add_global_internal
  add_global m init_expr ty = add_global_internal m (record {
    kind = local_global (record { global_id = 0; ty = ty; init_expr = init_expr });
    deleted = false;
  })

  unfoldable pub add_imported_global :
      Host T E M → String → String → T → Result ((ℕ × ℕ) × Host T E M)
  unfolding add_import add_global_internal
  add_imported_global m module_name name ty = do
    ((imp_global_id, imp_id), m') ← add_import m (global_import module_name name)
    let (id, m'') = add_global_internal m' (record {
      kind =
          import_global (record { import_id = imp_id; import_global_id = imp_global_id; ty = ty });
      deleted = false;
    })
    ok (
      (imp_global_id, imp_id),
      record m'' { globals = record m''.globals { recalculate_ids = true } },
    )

  abbrev delete_import : Host T E M → GlobalKind T E → Result (Host T E M)
  delete_import m (local_global l) = ok m
  delete_import m (import_global i) = do
    imports ← Imports.delete m.imports i.import_id
    ok (record m { imports = imports })

  unfoldable pub delete_global : Host T E M → ℕ → Result (Host T E M)
  unfolding delete get_kind Imports.delete
  delete_global m global_id = do
    let m' = record m { globals = delete m.globals global_id }
    kind ← get_kind m'.globals global_id
    delete_import m' kind

  unfoldable pub mod_global_init_expr : Host T E M → ℕ → E → Result (Host T E M)
  unfolding mod_init_expr
  mod_global_init_expr m global_id new_expr = do
    globals ← mod_init_expr m.globals global_id new_expr
    ok (record m { globals = globals })
