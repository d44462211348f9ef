-- ===== src/ModuleIr/Tests.antt =====
-- The theorems at a module with an imported function and a local one.
use wirm.Base.{ℕ, zero, suc, ◌≡◌, refl, ap, sym, true, false, none, some, [], ◌∷◌, get_elem?}
use wirm.Base.Maps.{get}
use wirm.Base.Results.{ok}
use mathlib.Core.Option.{some-injective}
use wirm.Reorder.{recalculate_ids}
use wirm.Body.{Body}
use wirm.ModuleIr.Imports.{Import, default_imports}
use wirm.ModuleIr.Funcs.{
  LocalFunction, Function, local_kind, import_kind, ImportedFunction, id_of_kind, new_local,
  function_Item,
}
use wirm.ModuleIr.{
  ModuleIr, func_import, add_import_func, add_local_func, delete_func, convert_import_fn_to_local,
}
use wirm.ModuleIr.Globals.{no_globals}
use wirm.ModuleIr.Laws.{
  IsValid, AreNumbered, imported, local_function, add_import_func-IsValid, add_local_func-IsValid,
}
use wirm.ModuleIr.Deletion.{delete_func-IsValid}
use wirm.ModuleIr.Conversion.{convert_import_fn_to_local-IsValid}
use wirm.ModuleIr.Encoded.{recalculate_ids-imports}

abbrev no_body : Body
no_body = record {
  locals = [];
  num_locals = 0;
  instructions = record { instructions = []; offsets = none; flags = none };
  num_instructions = 0;
  name = none;
}

abbrev local_one : Function
local_one = record {
  kind = local_kind (record { ty_id = 0; func_id = 0; body = no_body; args = [] });
  name = none;
  deleted = false;
}

abbrev host_log : Function
host_log = record {
  kind = import_kind (record { import_id = 0; import_fn_id = 1; ty_id = 3 });
  name = some "log";
  deleted = false;
}

-- The import was added after the local function.
abbrev host : ModuleIr ℕ ℕ
host = record {
  imports = record default_imports {
    imports = func_import "env" "log" 3 ∷ [];
    num_funcs = 1;
    num_funcs_added = 1;
  };
  functions = record { functions = local_one ∷ host_log ∷ []; recalculate_ids = true };
  globals = no_globals;
  memories = [];
  num_local_functions = 1;
  num_local_globals = 0;
  num_local_memories = 0;
}

host_numbered : AreNumbered (local_one ∷ host_log ∷ [])
host_numbered zero f h = ap (λ x. id_of_kind x.kind) (some-injective _ _ (sym h))
host_numbered (suc zero) f h = ap (λ x. id_of_kind x.kind) (some-injective _ _ (sym h))
host_numbered (suc (suc p)) f h = cc

host-IsValid : IsValid host
host-IsValid = record { in_step = λ e. cc; aligned = refl; numbered = host_numbered }

add_import_func-IsValid_example :
    (id imp_id : ℕ) × (m' : ModuleIr ℕ ℕ) × (add_import_func host "env" "exit" 4
      ≡ ok ((id, imp_id), m'))
    × IsValid m'
    × (get_elem? m'.functions.functions id ≡ some (imported host "exit" 4))
    × (get_elem? m'.imports.imports imp_id ≡ some (func_import "env" "exit" 4))
add_import_func-IsValid_example = add_import_func-IsValid host "env" "exit" 4 host-IsValid

add_local_func-IsValid_example :
    (id : ℕ) × (m' : ModuleIr ℕ ℕ) × (add_local_func host (some "main") 5 2 no_body ≡ ok (id, m'))
    × IsValid m'
    × (get_elem? m'.functions.functions id
        ≡ some (local_function host (some "main") (new_local 5 0 no_body 2)))
add_local_func-IsValid_example = add_local_func-IsValid host (some "main") 5 2 no_body host-IsValid

delete_func-IsValid_example :
    (m' : ModuleIr ℕ ℕ) × (delete_func host 1 ≡ ok m')
    × IsValid m'
    × (get_elem? m'.functions.functions 1 ≡ some (record host_log { deleted = true }))
    × ((i : ImportedFunction)
        → host_log.kind ≡ import_kind i
        → (imp : Import) × (get_elem? m'.imports.imports i.import_id
            ≡ some (record imp { deleted = true })))
delete_func-IsValid_example = delete_func-IsValid host 1 host_log host-IsValid refl refl

recalculate_ids-imports_example :
    (f : Function) × (i : ImportedFunction) × (get_elem?
        (recalculate_ids host.functions.functions).0
        0
      ≡ some f)
    × (f.kind ≡ import_kind i)
    × (i.import_id ≡ 0)
    × (get (id_of_kind f.kind) (recalculate_ids host.functions.functions).1 ≡ some 0)
recalculate_ids-imports_example = recalculate_ids-imports host 0 0 host-IsValid refl

abbrev local_log : LocalFunction
local_log = record { ty_id = 3; func_id = 1; body = no_body; args = 0 ∷ [] }

convert_import_fn_to_local-IsValid_example :
    (m' : ModuleIr ℕ ℕ) × (convert_import_fn_to_local host 1 local_log ≡ ok (true, m'))
    × IsValid m'
    × (get_elem? m'.functions.functions 1 ≡ some (record host_log { kind = local_kind local_log }))
convert_import_fn_to_local-IsValid_example =
    convert_import_fn_to_local-IsValid host 1 host_log
      (record { import_id = 0; import_fn_id = 1; ty_id = 3 }) local_log host-IsValid refl refl refl
      refl

-- The import of `host_log` has ID 0, and the function ID 1. Given the import's ID, the conversion
-- meets the local function there and refuses.
convert_import_id_run : convert_import_fn_to_local host 0 local_log ≡ ok (false, host)
unfolding convert_import_fn_to_local
convert_import_id_run = refl
