-- ===== src/Reindex/Laws.antt =====
-- `fix_op_id_mapping` against its specification: every index of a kind goes through that kind's
-- mapping at once, whatever the order of the fields.
use wirm.Base.{ℕ, ◌≡◌, refl, ◌≢◌, ◌↔◌, List, map, arith, All, inl, inr, sym, ◌∙◌}
use wirm.Base.Maps.{HashMap}
use wirm.Base.Results.{Result, ok, panic, ◌>>=◌, >>=-eq-ok, Result-cases}
use wirm.Reindex.{
  function_index, global_index, Field, Operator, refers_to_func, refers_to_global, update_fn_instr,
  update_global_instr, fix_op_id_mapping, update_if, called_deleted, deleted_global,
}
use wirm.Reindex.Fields.{IsDeclared, renumber, IsMapped, IsMapped-renumber}
use wirm.Reindex.Memory.{renumber_memory, AreMemoriesMapped}
use wirm.Reindex.Steps.{
  renumber_all, renumber_all-split, IsDeclared-renumber, memories-renumber, function-Apart,
  global-Apart, step-renumber, step-IsMapped, step-ne-panic, memory_step, memory_step-renumber,
  memory_step-mapped, memory_step-ne-panic, AreMapped,
}

module _ (fm gm mm : HashMap ℕ) (op : Operator) (d : IsDeclared op.fields) where
  fn_fields : List Field
  fn_fields = map (renumber function_index fm) op.fields

  global_fields : List Field
  global_fields = map (renumber global_index gm) fn_fields

  abbrev fn_op : Operator
  fn_op = record op { fields = fn_fields }

  abbrev global_op : Operator
  global_op = record op { fields = global_fields }

  fn-IsDeclared : IsDeclared fn_fields
  unfolding fn_fields
  fn-IsDeclared = IsDeclared-renumber function_index fm op.fields d

  global-IsDeclared : IsDeclared global_fields
  unfolding global_fields
  global-IsDeclared = IsDeclared-renumber global_index gm fn_fields fn-IsDeclared

  memories : AreMemoriesMapped mm op.fields ↔ AreMemoriesMapped mm global_fields
  unfolding global_fields fn_fields
  memories = (
    (λ a.
        (memories-renumber global_index gm global-Apart mm fn_fields).0
          ((memories-renumber function_index fm function-Apart mm op.fields).0 a)),
    (λ a.
        (memories-renumber function_index fm function-Apart mm op.fields).1
          ((memories-renumber global_index gm global-Apart mm fn_fields).1 a)),
  )

  globals : All (IsMapped global_index gm) op.fields ↔ All (IsMapped global_index gm) fn_fields
  unfolding fn_fields
  globals = IsMapped-renumber function_index global_index fm gm op.fields (λ x h. ground arith)

  abbrev fn_step : Result Operator
  fn_step = update_if (refers_to_func op) op (update_fn_instr op fm)

  abbrev global_step : Operator → Result Operator
  global_step op' = update_if (refers_to_global op') op' (update_global_instr op' gm)

  fn_step-renumber : All (IsMapped function_index fm) op.fields → fn_step ≡ ok fn_op
  unfolding refers_to_func update_fn_instr fn_fields
  fn_step-renumber = step-renumber function_index called_deleted fm op d.one_function

  global_step-renumber : All (IsMapped global_index gm) fn_fields → global_step fn_op ≡ ok global_op
  unfolding refers_to_global update_global_instr global_fields
  global_step-renumber = step-renumber global_index deleted_global gm fn_op fn-IsDeclared.one_global

  fix_lem :
      fix_op_id_mapping op fm gm mm
      ≡ (fn_step >>= λ op'. global_step op' >>= λ op''. memory_step mm op'')
  unfolding fix_op_id_mapping memory_step
  fix_lem = refl

  all_fields : map (renumber_memory mm) global_fields ≡ map (renumber_all fm gm mm) op.fields
  unfolding fn_fields global_fields
  all_fields = renumber_all-split fm gm mm op.fields

  -- For an operator with the fields of a declared one: if every index that it refers to has a
  -- new one, `fix_op_id_mapping` succeeds, each field is renumbered by the mapping of its kind,
  -- and nothing else of the operator changes.
  pub fix_op_id_mapping-renumber :
      AreMapped fm gm mm op.fields
      → fix_op_id_mapping op fm gm mm
        ≡ ok (record op { fields = map (renumber_all fm gm mm) op.fields })
  fix_op_id_mapping-renumber a = rw (
    fix_lem,
    fn_step-renumber a.by_function,
    global_step-renumber (globals.0 a.by_global),
    memory_step-renumber mm global_op global-IsDeclared (memories.0 a.by_memory),
    all_fields,
  )

  fn_step-IsMapped : (x : Operator) → fn_step ≡ ok x → All (IsMapped function_index fm) op.fields
  unfolding refers_to_func update_fn_instr
  fn_step-IsMapped x = step-IsMapped function_index called_deleted fm op d.one_function {op' = x}

  global_step-IsMapped :
      (x : Operator) → global_step fn_op ≡ ok x → All (IsMapped global_index gm) fn_fields
  unfolding refers_to_global update_global_instr
  global_step-IsMapped x =
      step-IsMapped global_index deleted_global gm fn_op fn-IsDeclared.one_global {op' = x}

  -- The steps after the one for functions, if that one has succeeded.
  fix_after :
      (x : Operator)
      → fn_step ≡ ok x
      → fix_op_id_mapping op fm gm mm ≡ (global_step fn_op >>= λ o. memory_step mm o)
  fix_after x first = rw (fix_lem, fn_step-renumber (fn_step-IsMapped x first))

  fix_last :
      (x y : Operator)
      → fn_step ≡ ok x
      → global_step fn_op ≡ ok y
      → fix_op_id_mapping op fm gm mm ≡ memory_step mm global_op
  fix_last x y first second =
      fix_after x first ∙ rw (global_step-renumber (global_step-IsMapped y second))

  -- For an operator with the fields of a declared one: if `fix_op_id_mapping` succeeds, every
  -- index that the operator refers to has a new one.
  pub fix_op_id_mapping-mapped :
      (op' : Operator) → fix_op_id_mapping op fm gm mm ≡ ok op' → AreMapped fm gm mm op.fields
  fix_op_id_mapping-mapped op' h =
      let (x, first, _) =
        >>=-eq-ok fn_step (λ o. global_step o >>= λ o'. memory_step mm o') (sym fix_lem ∙ h) in
      let (y, second, _) =
        >>=-eq-ok (global_step fn_op) (λ o'. memory_step mm o') {got = op'}
          (sym (fix_after x first) ∙ h) in
      record {
        by_function = fn_step-IsMapped x first;
        by_global = globals.1 (global_step-IsMapped y second);
        by_memory = memories.1 (
            memory_step-mapped mm global_op global-IsDeclared {op' = op'}
              (sym (fix_last x y first second) ∙ h));
      }

  -- For an operator with the fields of a declared one `fix_op_id_mapping` does not panic.
  pub fix_op_id_mapping-ne-panic : fix_op_id_mapping op fm gm mm ≢ panic
  unfolding refers_to_func update_fn_instr refers_to_global update_global_instr
  fix_op_id_mapping-ne-panic h = elim (Result-cases fn_step) [
    | inr (inr stop) ↦ step-ne-panic function_index called_deleted fm op d.one_function stop
    | inr (inl (e, fails)) ↦ cc (rw fails at (sym fix_lem ∙ h))
    | inl (x, first) ↦ elim (Result-cases (global_step fn_op)) [
      | inr (inr stop) ↦
          step-ne-panic global_index deleted_global gm fn_op fn-IsDeclared.one_global stop
      | inr (inl (e, fails)) ↦ cc (rw fails at (sym (fix_after x first) ∙ h))
      | inl (y, second) ↦
          memory_step-ne-panic mm global_op global-IsDeclared (sym (fix_last x y first second) ∙ h)
    ]
  ]
