-- ===== src/Body.antt =====
-- ir/types.rs, `DataType` and `Body`, and `add_local` of ir/module/module_functions.rs: the locals
-- of a function, kept as runs of equal types.
pub mod Laws
mod Tests
use wirm.Base.{
  ℕ, suc, ◌+◌, Bool, true, false, ◌&&◌, Option, none, some, List, [], ◌∷◌, ◌++◌, length, replicate,
  ◌==◌, if◌then◌else◌,
}
use Prim.Native.Nat.{◌%◌}
use Prim.Native.String.{String}
use wirm.Reindex.{Operator}
use wirm.Instr.Code.{Instructions}
use wirm.Instr.Code

pub data DataType : Type 0 where
  i8 i16 i32 i64 f32 f64 v128 : DataType
  func_ref func_ref_null extern_ref extern_ref_null any_type any_type_null none_type : DataType
  none_type_null no_extern no_extern_null no_func no_func_null eq_type eq_type_null : DataType
  struct_type struct_null array_type array_null i31 i31_null exn : DataType
  exn_null no_exn no_exn_null cont cont_null no_cont no_cont_null : DataType
  module_type : ℕ → Bool → DataType
  rec_group core_type_id : ℕ → DataType

abbrev pub kind_of : DataType → ℕ
kind_of i8 = 0
kind_of i16 = 1
kind_of i32 = 2
kind_of i64 = 3
kind_of f32 = 4
kind_of f64 = 5
kind_of v128 = 6
kind_of func_ref = 7
kind_of func_ref_null = 8
kind_of extern_ref = 9
kind_of extern_ref_null = 10
kind_of any_type = 11
kind_of any_type_null = 12
kind_of none_type = 13
kind_of none_type_null = 14
kind_of no_extern = 15
kind_of no_extern_null = 16
kind_of no_func = 17
kind_of no_func_null = 18
kind_of eq_type = 19
kind_of eq_type_null = 20
kind_of struct_type = 21
kind_of struct_null = 22
kind_of array_type = 23
kind_of array_null = 24
kind_of i31 = 25
kind_of i31_null = 26
kind_of exn = 27
kind_of exn_null = 28
kind_of no_exn = 29
kind_of no_exn_null = 30
kind_of cont = 31
kind_of cont_null = 32
kind_of no_cont = 33
kind_of no_cont_null = 34
kind_of (module_type ty_id nullable) = 35
kind_of (rec_group idx) = 36
kind_of (core_type_id idx) = 37

abbrev pub payload_of : DataType → ℕ × Bool
payload_of (module_type ty_id nullable) = (ty_id, nullable)
payload_of (rec_group idx) = (idx, false)
payload_of (core_type_id idx) = (idx, false)
payload_of _ = (0, false)

abbrev pub same_bool : Bool → Bool → Bool
same_bool true b = b
same_bool false true = false
same_bool false false = true

-- The derived equality: the variant, and what it carries.
unfoldable pub same_type : DataType → DataType → Bool
same_type a b =
    (kind_of a == kind_of b)
    && ((payload_of a).0 == (payload_of b).0)
    && same_bool (payload_of a).1 (payload_of b).1

-- Debug names of the locals are not modelled.
pub record Body : Type 0 where
  pub locals : List (ℕ × DataType)
  pub num_locals : ℕ
  pub instructions : Instructions
  pub num_instructions : ℕ
  pub name : Option String

unfoldable pub push_op : Body → Operator → Body
unfolding Code.push
push_op b op = record b {
  instructions = Code.push b.instructions op;
  num_instructions = suc b.num_instructions;
}

-- `vec![ty; count]` for each run, in order.
unfoldable pub locals_as_vec : List (ℕ × DataType) → List DataType
locals_as_vec [] = []
locals_as_vec ((count, ty) ∷ rest) = replicate count ty ++ locals_as_vec rest

-- `as u32`, and a `u32` sum in a release build.
abbrev pub wrap32 : ℕ → ℕ
wrap32 n = n % 4294967296

-- The last run grows where it has the type, and else a new run follows.
unfoldable extend_locals : DataType → List (ℕ × DataType) → List (ℕ × DataType)
unfolding same_type
extend_locals ty [] = (1, ty) ∷ []
extend_locals ty ((count, t) ∷ []) =
    if same_type t ty then (wrap32 (suc count), t) ∷ [] else (count, t) ∷ (1, ty) ∷ []
extend_locals ty (run ∷ next ∷ rest) = run ∷ extend_locals ty (next ∷ rest)

-- The new local's ID, and the count and the runs after it.
unfoldable pub add_local : DataType → ℕ → ℕ → List (ℕ × DataType) → ℕ × ℕ × List (ℕ × DataType)
unfolding extend_locals
add_local ty num_params num_locals locals =
    (wrap32 (num_params + num_locals), wrap32 (suc num_locals), extend_locals ty locals)

unfoldable pub add_locals : List DataType → ℕ → ℕ → List (ℕ × DataType) → ℕ × List (ℕ × DataType)
unfolding add_local
add_locals [] num_params num_locals locals = (num_locals, locals)
add_locals (ty ∷ types) num_params num_locals locals =
    let (id, num_locals', locals') = add_local ty num_params num_locals locals in
    add_locals types num_params num_locals' locals'
