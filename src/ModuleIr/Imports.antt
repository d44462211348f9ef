-- ===== src/ModuleIr/Imports.antt =====
-- ir/module/module_imports.rs: the import section of a module, with the number of imports of each
-- kind and how many of them were added.
use wirm.Base.{
  ℕ, suc, ◌-◌, Bool, true, false, ◌&&◌, Option, some, List, [], ◌∷◌, ◌++◌, length, get_elem?, set,
  ◌==◌, if◌then◌else◌,
}
use wirm.Base.Results.{Result, ok, or_panic, ◌>>=◌}
use Prim.Native.String.{String}

-- wasmparser's `TypeRef`; only the index of a function's type is read.
pub data TypeRef : Type 0 where
  func_type func_exact : ℕ → TypeRef
  table_type memory_type global_type tag_type : TypeRef

-- Without its tag, which nothing here reads.
pub record Import : Type 0 where
  pub module_name : String
  pub name : String
  pub ty : TypeRef
  pub custom_name : Option String
  pub deleted : Bool

unfoldable pub is_function : Import → Bool
is_function i = elim i.ty [ func_type n ↦ true | _ ↦ false ]

pub record ModuleImports : Type 0 where
  pub imports : List Import
  pub num_funcs : ℕ
  pub num_funcs_added : ℕ
  pub num_globals : ℕ
  pub num_globals_added : ℕ
  pub num_tables : ℕ
  pub num_tables_added : ℕ
  pub num_tags : ℕ
  pub num_tags_added : ℕ
  pub num_memories : ℕ
  pub num_memories_added : ℕ

abbrev pub default_imports : ModuleImports
default_imports = record {
  imports = [];
  num_funcs = 0;
  num_funcs_added = 0;
  num_globals = 0;
  num_globals_added = 0;
  num_tables = 0;
  num_tables_added = 0;
  num_tags = 0;
  num_tags_added = 0;
  num_memories = 0;
  num_memories_added = 0;
}

-- The tests `is_function`, `is_global`, ... in order, on the type: an exact function is none of them.
abbrev count_kind : TypeRef → ModuleImports → ModuleImports
count_kind (func_type n) m = record m { num_funcs = suc m.num_funcs }
count_kind (func_exact n) m = m
count_kind global_type m = record m { num_globals = suc m.num_globals }
count_kind table_type m = record m { num_tables = suc m.num_tables }
count_kind tag_type m = record m { num_tags = suc m.num_tags }
count_kind memory_type m = record m { num_memories = suc m.num_memories }

-- The loop of `new`.
unfoldable count_imports : List Import → ModuleImports → ModuleImports
count_imports [] def = def
count_imports (import ∷ rest) def = count_imports rest (count_kind import.ty def)

unfoldable pub new : List Import → ModuleImports
unfolding count_imports
new imports = record (count_imports imports default_imports) { imports = imports }

-- The `match import.ty` of `add`.
abbrev count_added : TypeRef → ModuleImports → ModuleImports
count_added (func_type n) m = record m {
  num_funcs = suc m.num_funcs;
  num_funcs_added = suc m.num_funcs_added;
}
count_added (func_exact n) m = record m {
  num_funcs = suc m.num_funcs;
  num_funcs_added = suc m.num_funcs_added;
}
count_added global_type m = record m {
  num_globals = suc m.num_globals;
  num_globals_added = suc m.num_globals_added;
}
count_added table_type m = record m {
  num_tables = suc m.num_tables;
  num_tables_added = suc m.num_tables_added;
}
count_added tag_type m = record m {
  num_tags = suc m.num_tags;
  num_tags_added = suc m.num_tags_added;
}
count_added memory_type m = record m {
  num_memories = suc m.num_memories;
  num_memories_added = suc m.num_memories_added;
}

-- The new import's ID, and the section with it at the end.
unfoldable pub add : ModuleImports → Import → ℕ × ModuleImports
add m import =
    let m' = count_added import.ty m in
    (length (m.imports ++ import ∷ []) - 1, record m' { imports = m.imports ++ import ∷ [] })

-- A write at an index, which panics out of range.
abbrev modify : ModuleImports → ℕ → (Import → Import) → Result ModuleImports
modify m imports_id f = do
  import ← or_panic (get_elem? m.imports imports_id)
  ok (record m { imports = set m.imports imports_id (f import) })

unfoldable pub delete : ModuleImports → ℕ → Result ModuleImports
delete m imports_id = modify m imports_id (λ import. record import { deleted = true })

unfoldable pub set_name : ModuleImports → String → ℕ → Result ModuleImports
set_name m name imports_id =
    modify m imports_id (λ import. record import { custom_name = some name })

unfoldable pub set_import_name : ModuleImports → String → String → ℕ → Result ModuleImports
set_import_name m module_name name imports_id =
    modify m imports_id (λ import. record import { module_name = module_name; name = name })

-- The loop of `set_fn_name` from position `curr_fn_id`.
unfoldable name_fn_from : ℕ → String → ℕ → List Import → List Import
unfolding is_function
name_fn_from curr_fn_id name func_id [] = []
name_fn_from curr_fn_id name func_id (import ∷ rest) =
    if is_function import && (curr_fn_id == func_id)
    then record import { custom_name = some name } ∷ rest
    else import ∷ name_fn_from (suc curr_fn_id) name func_id rest

unfoldable pub set_fn_name : ModuleImports → String → ℕ → ModuleImports
unfolding name_fn_from
set_fn_name m name func_id = record m { imports = name_fn_from 0 name func_id m.imports }
