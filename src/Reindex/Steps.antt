-- ===== src/Reindex/Steps.antt =====
-- The three steps of `fix_op_id_mapping`, each against the renumbering of its fields, and the
-- specification of all of them at once.
use wirm.Base.{
  ℕ, ◌≤◌, ◌≡◌, refl, ◌≢◌, ◌↔◌, some, List, [], ◌∷◌, map, arith, All, Bool-cases, Option-cases, inl,
  inr,
}
use wirm.Base.Maps.{HashMap}
use wirm.Base.Results.{Result, ok, panic, Error, >>=-eq-ok}
use wirm.Reindex.{
  FieldName, function_index, global_index, memarg, mem, src_mem, dst_mem, other_field, Field,
  Operator, has_field, memory_field, update_field, refers_to_memory, update_memory_instr,
  update_memory_fields, update_if, with_fields,
}
use wirm.Reindex.Fields.{
  occurs, IsDeclared, new_of, renumber, renumber_absent, IsMapped, update_field-renumber,
  update_field-IsMapped, update_field-ne-panic, occurs-renumber, IsMapped-renumber, Apart,
  IsMapped-absent, has_field-occurs, occurs_of_has,
}
use wirm.Reindex.Memory.{
  renumber_memory, AreMemoriesMapped, update_memory-renumber, update_memory-mapped,
  update_memory-ne-panic, memory_field-none, renumber_memory-none,
}

-- All fields at once, by the specification.
abbrev pub renumber_all : HashMap ℕ → HashMap ℕ → HashMap ℕ → Field → Field
renumber_all fm gm mm f = elim f.name [
  | function_index ↦ record f { index = new_of fm f.index }
  | global_index ↦ record f { index = new_of gm f.index }
  | other_field ↦ f
  | _ ↦ record f { index = new_of mm f.index }
]

-- Every index that the operator refers to has a new one.
pub record AreMapped (fm gm mm : HashMap ℕ) (fs : List Field) : Type 0 where
  pub by_function : All (IsMapped function_index fm) fs
  pub by_global : All (IsMapped global_index gm) fs
  pub by_memory : AreMemoriesMapped mm fs

pub renumber_all-split :
    (fm gm mm : HashMap ℕ) (fs : List Field)
    → map
        (renumber_memory mm)
        (map (renumber global_index gm) (map (renumber function_index fm) fs))
      ≡ map (renumber_all fm gm mm) fs
renumber_all-split fm gm mm [] = refl
renumber_all-split fm gm mm (f ∷ fs) = ground (arith, renumber_all-split fm gm mm fs)

pub IsDeclared-renumber :
    (n : FieldName) (m : HashMap ℕ) (fs : List Field)
    → IsDeclared fs
    → IsDeclared (map (renumber n m) fs)
IsDeclared-renumber n m fs d = omega (
  arith,
  occurs-renumber n function_index m fs,
  occurs-renumber n global_index m fs,
  occurs-renumber n memarg m fs,
  occurs-renumber n mem m fs,
  occurs-renumber n src_mem m fs,
  occurs-renumber n dst_mem m fs,
)

module _ (n : FieldName) (m : HashMap ℕ)
    (apart : Apart n memarg × Apart n mem × Apart n src_mem × Apart n dst_mem) where
  pub memories-renumber :
      (mm : HashMap ℕ) (fs : List Field)
      → AreMemoriesMapped mm fs ↔ AreMemoriesMapped mm (map (renumber n m) fs)
  memories-renumber mm fs = (
    (λ a. record {
      by_memarg = (IsMapped-renumber n memarg m mm fs apart.0).0 a.by_memarg;
      by_mem = (IsMapped-renumber n mem m mm fs apart.1).0 a.by_mem;
      by_src = (IsMapped-renumber n src_mem m mm fs apart.2).0 a.by_src;
      by_dst = (IsMapped-renumber n dst_mem m mm fs apart.3).0 a.by_dst;
    }),
    (λ a. record {
      by_memarg = (IsMapped-renumber n memarg m mm fs apart.0).1 a.by_memarg;
      by_mem = (IsMapped-renumber n mem m mm fs apart.1).1 a.by_mem;
      by_src = (IsMapped-renumber n src_mem m mm fs apart.2).1 a.by_src;
      by_dst = (IsMapped-renumber n dst_mem m mm fs apart.3).1 a.by_dst;
    }),
  )

pub function-Apart :
    Apart function_index memarg
    × Apart function_index mem
    × Apart function_index src_mem
    × Apart function_index dst_mem
function-Apart =
    ((λ x h. ground arith), (λ x h. ground arith), (λ x h. ground arith), (λ x h. ground arith))

pub global-Apart :
    Apart global_index memarg
    × Apart global_index mem
    × Apart global_index src_mem
    × Apart global_index dst_mem
global-Apart =
    ((λ x h. ground arith), (λ x h. ground arith), (λ x h. ground arith), (λ x h. ground arith))

-- One step for functions or globals.
module _ (n : FieldName) (e : ℕ → Error) (m : HashMap ℕ) (op : Operator)
    (one : occurs n op.fields ≤ 1) where
  pub step-renumber :
      All (IsMapped n m) op.fields
      → update_if (has_field n op.fields) op (with_fields op (update_field n e m op.fields))
        ≡ ok (record op { fields = map (renumber n m) op.fields })
  step-renumber h = elim (Bool-cases (has_field n op.fields)) [
    | inl t ↦
        rw (t, update_field-renumber n e m op.fields (omega (arith, occurs_of_has n op.fields t)) h)
    | inr f ↦ rw (f, renumber_absent n m op.fields (has_field-occurs n op.fields f))
  ]

  pub step-IsMapped :
      {op' : Operator}
      → update_if (has_field n op.fields) op (with_fields op (update_field n e m op.fields))
        ≡ ok op'
      → All (IsMapped n m) op.fields
  step-IsMapped {op'} h = elim (Bool-cases (has_field n op.fields)) [
    | inl t ↦
        let h' : with_fields op (update_field n e m op.fields) ≡ ok op' = rw t at h in
        let (fs, done, _) = >>=-eq-ok (update_field n e m op.fields) _ h' in
        update_field-IsMapped n e m op.fields one done
    | inr f ↦ IsMapped-absent n m op.fields (has_field-occurs n op.fields f)
  ]

  pub step-ne-panic :
      update_if (has_field n op.fields) op (with_fields op (update_field n e m op.fields)) ≢ panic
  step-ne-panic h = ground (arith, update_field-ne-panic n e m op.fields)

-- The memory step.
unfoldable pub memory_step : HashMap ℕ → Operator → Result Operator
memory_step mm op = update_if (refers_to_memory op) op (update_memory_instr op mm)

module _ (mm : HashMap ℕ) (op : Operator) (d : IsDeclared op.fields) where
  pub memory_step-renumber :
      AreMemoriesMapped mm op.fields
      → memory_step mm op ≡ ok (record op { fields = map (renumber_memory mm) op.fields })
  unfolding memory_step refers_to_memory update_memory_instr
  memory_step-renumber a = elim (Option-cases (memory_field op.fields)) [
    | inl miss ↦
        let z = memory_field-none op.fields miss in
        rw (miss, refers_to_memory, renumber_memory-none mm op.fields z.0 z.1 z.2 (omega arith))
    | inr (n, hit) ↦ rw (hit, refers_to_memory, update_memory-renumber mm op.fields d n hit a)
  ]

  pub memory_step-mapped :
      {op' : Operator} → memory_step mm op ≡ ok op' → AreMemoriesMapped mm op.fields
  unfolding memory_step refers_to_memory update_memory_instr
  memory_step-mapped {op'} h = elim (Option-cases (memory_field op.fields)) [
    | inl miss ↦
        let z = memory_field-none op.fields miss in
        record {
          by_memarg = IsMapped-absent memarg mm op.fields z.0;
          by_mem = IsMapped-absent mem mm op.fields z.1;
          by_src = IsMapped-absent src_mem mm op.fields z.2;
          by_dst = IsMapped-absent dst_mem mm op.fields (omega arith);
        }
    | inr (n, hit) ↦
        let h' : with_fields op (update_memory_fields (some n) mm op.fields) ≡ ok op' =
          rw (hit, refers_to_memory) at h in
        let (fs, done, _) = >>=-eq-ok (update_memory_fields (some n) mm op.fields) _ h' in
        update_memory-mapped mm op.fields d n hit done
  ]

  pub memory_step-ne-panic : memory_step mm op ≢ panic
  unfolding memory_step refers_to_memory update_memory_instr
  memory_step-ne-panic h = elim (Option-cases (memory_field op.fields)) [
    | inl miss ↦ cc (rw (miss, refers_to_memory) at h)
    | inr (n, hit) ↦ ground (arith, update_memory-ne-panic mm op.fields d n hit)
  ]
