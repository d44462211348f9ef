-- ===== src/ModuleIr.antt =====
-- ir/module/mod.rs: adding, deleting and converting the functions of a module, which keeps its
-- imports, its functions and its globals in three lists. `G` and `M` are its globals and memories, of
-- which only the number is read here.
pub mod Imports
pub mod Funcs
pub mod Globals
pub mod Aligned
pub mod Laws
pub mod Deletion
pub mod Encoded
pub mod Conversion
mod Tests
use wirm.Base.{ℕ, suc, Bool, true, false, not, Option, none, some, List, length, ltb, if◌then◌else◌}
use wirm.Base.Results.{Result, ok, panic, ◌>>=◌}
use wirm.Body.{Body}
use wirm.ModuleIr.Imports.{
  ModuleImports, Import, TypeRef, func_type, func_exact, table_type, memory_type, global_type,
  tag_type,
}
use wirm.ModuleIr.Imports
use wirm.ModuleIr.Funcs.{
  Functions, Function, FuncKind, local_kind, import_kind, LocalFunction, is_import_kind, new_local,
  get_function, put, set_kind, set_imported_fn_name, set_local_fn_name,
}
use wirm.ModuleIr.Funcs
use wirm.ModuleIr.Globals.{ModuleGlobals}
use Prim.Native.String.{String}

-- The fields of `Module` that these functions read or change.
pub record ModuleIr (G M : Type 0) : Type 0 where
  pub imports : ModuleImports
  pub functions : Functions
  pub globals : ModuleGlobals G
  pub memories : List M
  pub num_local_functions : ℕ
  pub num_local_globals : ℕ
  pub num_local_memories : ℕ

abbrev pub func_import : String → String → ℕ → Import
func_import module_name name ty_id = record {
  module_name = module_name;
  name = name;
  ty = func_type ty_id;
  custom_name = none;
  deleted = false;
}

module _ {G M : Type 0} where
  -- The number of local items of the kind, of imports of it, and of all.
  abbrev counts : ModuleIr G M → TypeRef → Result (ℕ × ℕ × ℕ)
  counts m (func_type n) =
      ok (m.num_local_functions, m.imports.num_funcs, length m.functions.functions)
  counts m (func_exact n) =
      ok (m.num_local_functions, m.imports.num_funcs, length m.functions.functions)
  counts m global_type = ok (m.num_local_globals, m.imports.num_globals, length m.globals.globals)
  counts m memory_type = ok (m.num_local_memories, m.imports.num_memories, length m.memories)
  counts m table_type = panic
  counts m tag_type = panic

  -- The new item's ID in its index space, and the import's ID; `todo!()` for tables and tags.
  unfoldable pub add_import : ModuleIr G M → Import → Result ((ℕ × ℕ) × ModuleIr G M)
  unfolding Imports.add
  add_import m import = do
    (num_local, num_imported, num_total) ← counts m import.ty
    let id = if ltb 0 num_local then num_total else num_imported
    ok (
      (id, (Imports.add m.imports import).0),
      record m { imports = (Imports.add m.imports import).1 },
    )

  unfoldable pub add_import_func :
      ModuleIr G M → String → String → ℕ → Result ((ℕ × ℕ) × ModuleIr G M)
  unfolding add_import Funcs.add_import_func
  add_import_func m module_name name ty_id = do
    ((imp_fn_id, imp_id), m') ← add_import m (func_import module_name name ty_id)
    ok (
      (imp_fn_id, imp_id),
      record m' {
        functions = Funcs.add_import_func m'.functions imp_id ty_id (some name) imp_fn_id;
      },
    )

  -- `ty` is what `types.add_func_type_internal` gave.
  unfoldable pub add_local_func :
      ModuleIr G M → Option String → ℕ → ℕ → Body → Result (ℕ × ModuleIr G M)
  unfolding Funcs.add_local_func new_local
  add_local_func m name ty num_params body = do
    (id, fs) ← Funcs.add_local_func m.functions (new_local ty 0 body num_params) name
    ok (id, record m { functions = fs; num_local_functions = suc m.num_local_functions })

  abbrev delete_import : ModuleIr G M → FuncKind → Result (ModuleIr G M)
  delete_import m (local_kind l) = ok m
  delete_import m (import_kind i) = do
    imports ← Imports.delete m.imports i.import_id
    ok (record m { imports = imports })

  unfoldable pub delete_func : ModuleIr G M → ℕ → Result (ModuleIr G M)
  unfolding Funcs.delete get_function Imports.delete
  delete_func m function_id = do
    let m' = record m { functions = Funcs.delete m.functions function_id }
    f ← get_function m'.functions function_id
    delete_import m' f.kind

  -- The parameter is of type `ImportsID`, but the code takes it for an index of the functions.
  unfoldable pub convert_import_fn_to_local :
      ModuleIr G M → ℕ → LocalFunction → Result (Bool × ModuleIr G M)
  unfolding get_function delete_func set_kind put
  convert_import_fn_to_local m import_id local_function = do
    f ← get_function m.functions import_id
    (if not (is_import_kind f.kind) then ok (false, m) else (do
      m' ← delete_func m import_id
      f' ← get_function m'.functions import_id
      ok (
        true,
        record m' {
          functions = put m'.functions import_id (set_kind f' (local_kind local_function));
        },
      )))

  unfoldable pub convert_local_fn_to_import :
      ModuleIr G M → ℕ → String → String → ℕ → Result (Bool × ModuleIr G M)
  unfolding get_function delete_func set_kind put add_import set_imported_fn_name
  convert_local_fn_to_import m function_id module_name name ty_id = do
    f ← get_function m.functions function_id
    (if is_import_kind f.kind then ok (false, m) else (do
      m' ← delete_func m function_id
      ((id, import_id), m'') ← add_import m' (func_import module_name name ty_id)
      f' ← get_function m''.functions function_id
      let kind =
          import_kind (record { import_id = import_id; import_fn_id = function_id; ty_id = ty_id })
      (ok_named, fs) ←
          set_imported_fn_name (put m''.functions function_id (set_kind f' kind)) function_id name
      ok (true, record m'' { functions = fs })))

  unfoldable pub set_fn_name : ModuleIr G M → ℕ → String → Result (ModuleIr G M)
  unfolding Imports.set_fn_name set_imported_fn_name set_local_fn_name
  set_fn_name m id name =
      if ltb id m.imports.num_funcs
      then (do
        (ok_named, fs) ← set_imported_fn_name m.functions id name
        ok (record m { imports = Imports.set_fn_name m.imports name id; functions = fs }))
      else (do
        (ok_named, fs) ← set_local_fn_name m.functions id name
        ok (record m { functions = fs }))
