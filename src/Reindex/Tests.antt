-- ===== src/Reindex/Tests.antt =====
-- The theorems at a call of a function.
use wirm.Base.{ℕ, ◌≡◌, ◌≢◌, refl, [], ◌∷◌, map, arith}
use wirm.Base.Maps.{HashMap, get}
use wirm.Base.Results.{ok, panic}
use wirm.Reindex.{Field, function_index, named, Operator, fix_op_id_mapping}
use wirm.Reindex.Fields.{IsDeclared}
use wirm.Reindex.Steps.{AreMapped, renumber_all}
use wirm.Reindex.Laws.{
  fix_op_id_mapping-renumber, fix_op_id_mapping-mapped, fix_op_id_mapping-ne-panic,
}

abbrev call_field : ℕ → Field
call_field n = record { name = function_index; index = n; payload = [] }

abbrev call : ℕ → Operator
call n = record { op_name = named 16; fields = call_field n ∷ [] }

abbrev moved : HashMap ℕ
moved = (3, 5) ∷ []

call-IsDeclared : IsDeclared (call 3).fields
call-IsDeclared = record {
  one_function = omega arith;
  one_global = omega arith;
  one_memory = omega arith;
  copy = refl;
}

call-AreMapped : AreMapped moved [] [] (call 3).fields
unfolding get
call-AreMapped = record {
  by_function = ground arith;
  by_global = ground arith;
  by_memory = record {
    by_memarg = ground arith;
    by_mem = ground arith;
    by_src = ground arith;
    by_dst = ground arith;
  };
}

fixed_call : fix_op_id_mapping (call 3) moved [] [] ≡ ok (call 5)
unfolding fix_op_id_mapping get
fixed_call = refl

fix_op_id_mapping-renumber_example :
    fix_op_id_mapping (call 3) moved [] []
    ≡ ok (record (call 3) { fields = map (renumber_all moved [] []) (call 3).fields })
fix_op_id_mapping-renumber_example =
    fix_op_id_mapping-renumber moved [] [] (call 3) call-IsDeclared call-AreMapped

fix_op_id_mapping-mapped_example : AreMapped moved [] [] (call 3).fields
fix_op_id_mapping-mapped_example =
    fix_op_id_mapping-mapped moved [] [] (call 3) call-IsDeclared (call 5) fixed_call

fix_op_id_mapping-ne-panic_example : fix_op_id_mapping (call 3) moved [] [] ≢ panic
fix_op_id_mapping-ne-panic_example = fix_op_id_mapping-ne-panic moved [] [] (call 3) call-IsDeclared
