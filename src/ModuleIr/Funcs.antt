-- ===== src/ModuleIr/Funcs.antt =====
-- ir/module/module_functions.rs: the functions of a module, imported and local ones in one list.
-- The instrumentation at function level and the tag of a local function are not modelled.
use wirm.Base.{
  ℕ, zero, suc, Bool, true, false, Option, none, some, List, [], ◌∷◌, ◌++◌, length, get_elem?, set,
  ltb, if◌then◌else◌,
}
use wirm.Base.Results.{Result, ok, err, or_panic, ◌>>=◌, text, invalid_operation}
use wirm.Body.{Body, DataType}
use wirm.Body
use wirm.Reorder.{Item}
use Prim.Native.String.{String}

pub record LocalFunction : Type 0 where
  pub ty_id : ℕ
  pub func_id : ℕ
  pub body : Body
  pub args : List ℕ

pub record ImportedFunction : Type 0 where
  pub import_id : ℕ
  pub import_fn_id : ℕ
  pub ty_id : ℕ

pub data FuncKind : Type 0 where
  local_kind : LocalFunction → FuncKind
  import_kind : ImportedFunction → FuncKind

pub record Function : Type 0 where
  pub kind : FuncKind
  pub name : Option String
  pub deleted : Bool

pub record Functions : Type 0 where
  pub functions : List Function
  pub recalculate_ids : Bool

abbrev pub is_import_kind : FuncKind → Bool
is_import_kind (local_kind l) = false
is_import_kind (import_kind i) = true

abbrev pub id_of_kind : FuncKind → ℕ
id_of_kind (local_kind l) = l.func_id
id_of_kind (import_kind i) = i.import_fn_id

-- `GetID` and `LocalOrImport` for `Function`.
instance abbrev pub function_Item : Item Function
function_Item = record {
  get_id = λ f. id_of_kind f.kind;
  is_import = λ f. is_import_kind f.kind;
  is_deleted = λ f. f.deleted;
}

-- The IDs `0..num_args`, pushed in order.
unfoldable args_to : ℕ → List ℕ
args_to zero = []
args_to (suc n) = args_to n ++ n ∷ []

-- `LocalFunction::new`.
unfoldable pub new_local : ℕ → ℕ → Body → ℕ → LocalFunction
unfolding args_to
new_local type_id function_id body num_args = record {
  ty_id = type_id;
  func_id = function_id;
  body = body;
  args = args_to num_args;
}

-- `LocalFunction::add_local`.
unfoldable pub local_add_local : LocalFunction → DataType → ℕ × LocalFunction
unfolding Body.add_local
local_add_local l ty =
    let (id, num_locals, locals) =
      Body.add_local ty (length l.args) l.body.num_locals l.body.locals in
    (id, record l { body = record l.body { num_locals = num_locals; locals = locals } })

unfoldable pub new_function : FuncKind → Option String → Function
new_function kind name = record { kind = kind; name = name; deleted = false }

unfoldable pub set_kind : Function → FuncKind → Function
set_kind f kind = record f { kind = kind; deleted = false }

abbrev unwrapped : FuncKind → Result LocalFunction
unwrapped (local_kind l) = ok l
unwrapped (import_kind i) =
    err (invalid_operation (text "Attempting to unwrap an imported function as a local!!"))

-- `unwrap_local` and `unwrap_local_mut` of `FuncKind`.
unfoldable pub unwrap_local : FuncKind → Result LocalFunction
unwrap_local kind = unwrapped kind

-- `get`, `get_kind` and the other reads at an index, which panic out of range.
unfoldable pub get_function : Functions → ℕ → Result Function
get_function fs function_id = or_panic (get_elem? fs.functions function_id)

unfoldable pub get_fn_by_id : Functions → ℕ → Option Function
get_fn_by_id fs function_id =
    if ltb function_id (length fs.functions) then get_elem? fs.functions function_id else none

-- The vector with another function at an index.
unfoldable pub put : Functions → ℕ → Function → Functions
put fs function_id f = record fs { functions = set fs.functions function_id f }

abbrev deleted_at : List Function → ℕ → Option Function → List Function
deleted_at fs id none = fs
deleted_at fs id (some f) = set fs id (record f { deleted = true })

unfoldable pub delete : Functions → ℕ → Functions
delete fs id = record {
  functions = deleted_at fs.functions id (get_elem? fs.functions id);
  recalculate_ids = true;
}

unfoldable pub next_id : Functions → ℕ
next_id fs = length fs.functions

abbrev renamed : Function → String → FuncKind → Bool × Function
renamed f name (import_kind i) = (false, f)
renamed f name (local_kind l) = (
  true,
  record f {
    kind = local_kind (record l { body = record l.body { name = some name } });
    name = some name;
  },
)

unfoldable pub set_local_fn_name : Functions → ℕ → String → Result (Bool × Functions)
unfolding get_function put
set_local_fn_name fs func_idx name = do
  f ← get_function fs func_idx
  ok ((renamed f name f.kind).0, put fs func_idx (renamed f name f.kind).1)

unfoldable pub set_imported_fn_name : Functions → ℕ → String → Result (Bool × Functions)
unfolding get_function put
set_imported_fn_name fs func_idx name = do
  f ← get_function fs func_idx
  (if is_import_kind f.kind
      then ok (true, put fs func_idx (record f { name = some name }))
      else ok (false, fs))

abbrev named : Functions → ℕ → Option String → Result (ℕ × Functions)
named fs id none = ok (id, fs)
named fs id (some name) = set_local_fn_name fs id name >>= λ r. ok (id, r.1)

unfoldable pub add_local_func : Functions → LocalFunction → Option String → Result (ℕ × Functions)
unfolding next_id new_function set_local_fn_name
add_local_func fs local_function name =
    let id = next_id fs in
    named
      (record {
        functions =
            fs.functions
            ++ new_function (local_kind (record local_function { func_id = id })) name ∷ [];
        recalculate_ids = true;
      })
      id name

unfoldable pub add_import_func : Functions → ℕ → ℕ → Option String → ℕ → Functions
unfolding new_function
add_import_func fs imp_id ty_id name imp_fn_id = record {
  functions =
      fs.functions
      ++ new_function
          (import_kind (record { import_id = imp_id; import_fn_id = imp_fn_id; ty_id = ty_id }))
          name
        ∷ [];
  recalculate_ids = true;
}

unfoldable pub add_local : Functions → ℕ → DataType → Result (ℕ × Functions)
unfolding get_function unwrap_local local_add_local put
add_local fs func_idx ty = do
  f ← get_function fs func_idx
  l ← unwrap_local f.kind
  ok (
    (local_add_local l ty).0,
    put fs func_idx (record f { kind = local_kind (local_add_local l ty).1 }),
  )
