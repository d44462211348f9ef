-- ===== src/Emit.antt =====
-- ir/module/mod.rs, `encode_function`: the operators of a body and what the instrumentation has put
-- around them, each with its indices renumbered, handed to the encoder in order. The source renumbers
-- the operators in place, in a copy of the module: the body that this leaves, which only the report
-- of side effects reads, is not part of the result.
pub mod Laws
pub mod Total
mod Tests
use wirm.Base.{
  ℕ, suc, ◌-◌, Bool, not, ◌&&◌, Option, none, some, List, [], ◌∷◌, ◌++◌, length, get_elem?, leb,
  if◌then◌else◌,
}
use wirm.Base.Maps.{HashMap}
use wirm.Base.Results.{Result, ok, or_panic, ◌>>=◌}
use wirm.Reindex.{Operator, fix_op_id_mapping}
use wirm.Instr.{Flag, InjectedInstrs, is_none, has_instr, check_special_is_resolved}
use wirm.Instr.Code.{Instructions}

-- `reencode` is `RoundtripReencoder::instruction` of wasm-encoder, which may refuse an operator;
-- `Code` is what it makes of one.
module _ {Code : Type 0} (reencode : Operator → Option Code)
    (func_mapping global_mapping memory_mapping : HashMap ℕ) where
  -- `encode`, with its `expect`.
  unfoldable pub encode : Operator → Result Code
  encode op = or_panic (reencode op)

  unfoldable pub fix : Operator → Result Operator
  unfolding fix_op_id_mapping
  fix op = fix_op_id_mapping op func_mapping global_mapping memory_mapping

  unfoldable pub update_ids_and_encode : List Operator → Result (List Code)
  unfolding fix encode
  update_ids_and_encode [] = ok []
  update_ids_and_encode (instr ∷ rest) = do
    instr' ← fix instr
    code ← encode instr'
    codes ← update_ids_and_encode rest
    ok (code ∷ codes)

  -- The alternate, or the operator itself where there is none or at the end of the function.
  unfoldable pub encode_alternate : Bool → Option InjectedInstrs → Operator → Result (List Code)
  unfolding update_ids_and_encode
  encode_alternate at_end none op = do code ← encode op; ok (code ∷ [])
  encode_alternate at_end (some alt) op =
      if not at_end then update_ids_and_encode alt.instrs else (do code ← encode op; ok (code ∷ []))

  unfoldable pub encode_after : Bool → InjectedInstrs → Result (List Code)
  unfolding update_ids_and_encode
  encode_after at_end after = if not at_end then update_ids_and_encode after.instrs else ok []

  -- One operator, already renumbered, that has an instrumentation.
  unfoldable pub encode_instrumented : Bool → Flag → Operator → Result (List Code)
  unfolding encode_alternate encode_after check_special_is_resolved
  encode_instrumented at_end instrument op = do
    _ ← check_special_is_resolved instrument
    before ← update_ids_and_encode instrument.at_before.instrs
    middle ← encode_alternate at_end instrument.at_alternate op
    after ← encode_after at_end instrument.at_after
    ok (before ++ (middle ++ after))

  -- The loop from position `idx`; `instr_len` is the last position.
  unfoldable pub encode_ops : ℕ → ℕ → Option (List Flag) → List Operator → Result (List Code)
  unfolding encode_instrumented has_instr
  encode_ops instr_len idx flags [] = ok []
  encode_ops instr_len idx none (op ∷ ops) = do
    op' ← fix op
    code ← encode op'
    codes ← encode_ops instr_len (suc idx) none ops
    ok (code ∷ codes)
  encode_ops instr_len idx (some flags) (op ∷ ops) = do
    op' ← fix op
    instrument ← or_panic (get_elem? flags idx)
    here ←
        (if not (has_instr instrument)
          then (do code ← encode op'; ok (code ∷ []))
          else encode_instrumented (leb instr_len idx) instrument op')
    codes ← encode_ops instr_len (suc idx) (some flags) ops
    ok (here ++ codes)

  -- `instructions.len() - 1` is not read where there is no operator.
  unfoldable pub encode_function : Instructions → Result (List Code)
  unfolding encode_ops
  encode_function i = encode_ops (length i.instructions - 1) 0 i.flags i.instructions
