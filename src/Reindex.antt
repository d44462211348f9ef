-- ===== src/Reindex.antt =====
-- ir/module/reindex.rs: an operator that names a function, a global or a memory by its index is
-- given the new index. `wasmparser::for_each_operator!` lists the operators with the names of
-- their fields; the macros of the source look at those names alone, so an operator is here the
-- list of its named fields, in the order of its declaration.
pub mod Fields
pub mod Memory
pub mod Steps
pub mod Laws
mod Tests
use wirm.Base.{ℕ, Bool, true, false, Option, none, some, List, [], ◌∷◌, if◌then◌else◌}
use wirm.Base.Maps.{HashMap, get}
use wirm.Base.Results.{
  Result, ok, panic, or_err, Error, instrumentation_error, text, with_id, ◌>>=◌,
}

-- The field names that the macros tell apart.
pub data FieldName : Type 0 where
  function_index global_index memarg mem src_mem dst_mem other_field : FieldName

-- `index` is the number that the field holds, for `memarg` its `memory`; `payload` stands for the
-- rest of a `memarg` (alignment and offset), and for what another field holds besides a number.
pub record Field : Type 0 where
  pub name : FieldName
  pub index : ℕ
  pub payload : List ℕ

-- The operators that the instrumentation tells apart or makes; any other goes by a number of its own.
pub data OpName : Type 0 where
  block loop if_op else_op end_op try_table : OpName
  br br_if br_table br_on_cast br_on_cast_fail br_on_null br_on_non_null : OpName
  try_op return_op return_call return_call_indirect return_call_ref : OpName
  unreachable throw rethrow throw_ref resume_throw : OpName
  i32_const local_get local_set : OpName
  named : ℕ → OpName

pub record Operator : Type 0 where
  pub op_name : OpName
  pub fields : List Field

abbrev pub is_name : FieldName → FieldName → Bool
is_name function_index function_index = true
is_name global_index global_index = true
is_name memarg memarg = true
is_name mem mem = true
is_name src_mem src_mem = true
is_name dst_mem dst_mem = true
is_name other_field other_field = true
is_name _ _ = false

-- The `@scan` rules for one field name: the operator has such a field.
unfoldable pub has_field : FieldName → List Field → Bool
has_field n [] = false
has_field n (f ∷ rest) = if is_name n f.name then true else has_field n rest

unfoldable pub refers_to_func : Operator → Bool
unfolding has_field
refers_to_func op = has_field function_index op.fields

unfoldable pub refers_to_global : Operator → Bool
unfolding has_field
refers_to_global op = has_field global_index op.fields

-- The first of `memarg`, `mem` and `src_mem` among the fields.
unfoldable pub memory_field : List Field → Option FieldName
memory_field [] = none
memory_field (f ∷ rest) = elim f.name [
  | memarg ↦ some memarg
  | mem ↦ some mem
  | src_mem ↦ some src_mem
  | _ ↦ memory_field rest
]

unfoldable pub refers_to_memory : Operator → Bool
unfolding memory_field
refers_to_memory op = elim (memory_field op.fields) [ none ↦ false | some _ ↦ true ]

-- `match mapping.get(&index)` on the field of that name; no such field is the `panic!` at the end
-- of each generated function.
unfoldable pub update_field : FieldName → (ℕ → Error) → HashMap ℕ → List Field → Result (List Field)
update_field n e mapping [] = panic
update_field n e mapping (f ∷ rest) =
    if is_name n f.name
    then (do
      new_index ← or_err (get f.index mapping) (e f.index)
      ok (record f { index = new_index } ∷ rest))
    else (do rest' ← update_field n e mapping rest; ok (f ∷ rest'))

abbrev called_deleted : ℕ → Error
called_deleted _ = instrumentation_error (text "Called a deleted function!")

abbrev deleted_global : ℕ → Error
deleted_global _ = instrumentation_error (text "Operation on a deleted global!")

abbrev deleted_memory : ℕ → Error
deleted_memory id =
    instrumentation_error (with_id "Attempting to reference a deleted memory, ID: " id "")

abbrev with_fields : Operator → Result (List Field) → Result Operator
with_fields op r = do fields' ← r; ok (record op { fields = fields' })

unfoldable pub update_fn_instr : Operator → HashMap ℕ → Result Operator
unfolding update_field
update_fn_instr op mapping =
    with_fields op (update_field function_index called_deleted mapping op.fields)

unfoldable pub update_global_instr : Operator → HashMap ℕ → Result Operator
unfolding update_field
update_global_instr op mapping =
    with_fields op (update_field global_index deleted_global mapping op.fields)

-- Of `memory.copy` both the source and the destination are updated.
unfoldable pub update_memory_fields :
    Option FieldName → HashMap ℕ → List Field → Result (List Field)
unfolding update_field
update_memory_fields none mapping fields = panic
update_memory_fields (some src_mem) mapping fields = do
  fields' ← update_field src_mem deleted_memory mapping fields
  update_field dst_mem deleted_memory mapping fields'
update_memory_fields (some n) mapping fields = update_field n deleted_memory mapping fields

unfoldable pub update_memory_instr : Operator → HashMap ℕ → Result Operator
unfolding update_memory_fields memory_field
update_memory_instr op mapping =
    with_fields op (update_memory_fields (memory_field op.fields) mapping op.fields)

-- `if refers { update(op)?; }`
abbrev update_if : Bool → Operator → Result Operator → Result Operator
update_if refers op updated = if refers then updated else ok op

unfoldable pub fix_op_id_mapping : Operator → HashMap ℕ → HashMap ℕ → HashMap ℕ → Result Operator
unfolding refers_to_func refers_to_global refers_to_memory update_fn_instr update_global_instr
    update_memory_instr
fix_op_id_mapping op func_mapping global_mapping memory_mapping = do
  op' ← update_if (refers_to_func op) op (update_fn_instr op func_mapping)
  op'' ← update_if (refers_to_global op') op' (update_global_instr op' global_mapping)
  update_if (refers_to_memory op'') op'' (update_memory_instr op'' memory_mapping)
