-- ===== src/Emit/Tests.antt =====
-- The theorems at a body of two operators, one of them with an operator injected before it.
use wirm.Base.{ℕ, ◌≡◌, ◌↔◌, refl, Option, none, some, [], ◌∷◌, arith}
use wirm.Base.Results.{ok}
use wirm.Reindex.{Operator, named, fix_op_id_mapping}
use wirm.Instr.{Flag, InjectedInstrs, no_instrs, default_flag, check_special_is_resolved}
use wirm.Instr.Code.{Instructions}
use wirm.Emit.{fix, update_ids_and_encode, encode_function}
use wirm.Emit.Laws.{spliced_body}
use wirm.Emit.Total.{IsCovered, encode_function_iff}

abbrev plain : ℕ → Operator
plain n = record { op_name = named n; fields = [] }

-- Every operator is encoded by itself.
abbrev same_op : Operator → Option Operator
same_op op = some op

abbrev injected : Flag
injected = record default_flag { at_before = record { instrs = plain 7 ∷ []; tag = none } }

abbrev body : Instructions
body = record {
  instructions = plain 1 ∷ plain 2 ∷ [];
  offsets = none;
  flags = some (injected ∷ default_flag ∷ []);
}

encoded : encode_function same_op [] [] [] body ≡ ok (plain 7 ∷ plain 1 ∷ plain 2 ∷ [])
unfolding encode_function fix_op_id_mapping
encoded = refl

-- The alternate `None` keeps the operator, and `Some` of an empty list removes it.
abbrev body_with : Option InjectedInstrs → Instructions
body_with alternate = record {
  instructions = plain 1 ∷ plain 2 ∷ [];
  offsets = none;
  flags = some (record injected { at_alternate = alternate } ∷ default_flag ∷ []);
}

alternate_none_run :
    encode_function same_op [] [] [] (body_with none) ≡ ok (plain 7 ∷ plain 1 ∷ plain 2 ∷ [])
unfolding encode_function fix_op_id_mapping
alternate_none_run = refl

alternate_empty_run :
    encode_function same_op [] [] [] (body_with (some no_instrs)) ≡ ok (plain 7 ∷ plain 2 ∷ [])
unfolding encode_function fix_op_id_mapping
alternate_empty_run = refl

body_IsCovered : IsCovered body.flags 0 2
unfolding check_special_is_resolved
body_IsCovered = (omega arith, (refl, (refl, tt)))

fixes : (n : ℕ) → fix same_op [] [] [] (plain n) ≡ ok (plain n)
unfolding fix fix_op_id_mapping
fixes n = refl

encode_function_iff_example :
    (encode_function same_op [] [] [] body ≡ ok (plain 7 ∷ plain 1 ∷ plain 2 ∷ [])) ↔ (
      update_ids_and_encode same_op [] [] [] (spliced_body body)
      ≡ ok (plain 7 ∷ plain 1 ∷ plain 2 ∷ []))
encode_function_iff_example =
    encode_function_iff same_op [] [] [] body (plain 7 ∷ plain 1 ∷ plain 2 ∷ [])
      ((plain 1, fixes 1), ((plain 2, fixes 2), tt)) body_IsCovered
