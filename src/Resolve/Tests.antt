-- ===== src/Resolve/Tests.antt =====
-- Special instrumentation resolved on small bodies.
use wirm.Base.{◌≡◌, refl, true, none, some, List, [], ◌∷◌, arith, length, map, get_elem?}
use wirm.Base.Results.{ok, value}
use wirm.Reindex.{Operator, block, if_op, else_op, end_op, br, named, local_set, i32_const}
use wirm.Instr.{Flag, InjectedInstrs, no_instrs, default_flag, add_instr as flag_add_instr}
use mathlib.Core.Option
use wirm.Instr.Code.{flags_of}
use wirm.Body.{Body}
use wirm.Modifier.{FuncFlag, init}
use wirm.Emit.Total.{IsCovered}
use wirm.Resolve.{plain, numbered}
use wirm.Resolve.Run.{arm_of, resolve_function}
use wirm.Resolve.Arms.{depth_after}
use wirm.Resolve.Round.{IsResolvable}
use wirm.Modifier.Effects.{Grows}
use wirm.Resolve.Whole.{resolve_function-IsCovered, resolve_function-Grows}

abbrev probe : Operator
probe = plain (named 7)

abbrev probes : InjectedInstrs
probes = record { instrs = probe ∷ []; tag = none }

abbrev special_func : FuncFlag
special_func = record {
  has_special_instr = true;
  entry = no_instrs;
  exit = no_instrs;
  current_mode = none;
}

abbrev body_of : List Operator → List Flag → Body
body_of ops flags = record {
  locals = [];
  num_locals = 0;
  instructions = record { instructions = ops; offsets = none; flags = some flags };
  num_instructions = length ops;
  name = none;
}

-- What is put before each operator, after the resolution.
abbrev before_of : FuncFlag × Body → List (List Operator)
before_of r = map (λ f. f.at_before.instrs) (flags_of r.1.instructions)

-- block; br 0; end; end, with `block_exit` at the block, and `before` and `semantic_after` at the
-- branch.
abbrev branching : Body
branching = body_of (plain block ∷ numbered br 0 ∷ plain end_op ∷ plain end_op ∷ []) (
    record default_flag { at_block_exit = probes }
    ∷ record default_flag { at_before = probes; at_semantic_after = probes }
    ∷ default_flag
    ∷ default_flag
    ∷ [])

branching_nested :
    IsResolvable 1 branching.instructions.instructions (flags_of branching.instructions)
unfolding depth_after arm_of
branching_nested = (λ e. refl, (λ e. refl, (λ e. refl, (λ e. refl, tt))))

resolve_function-IsCovered_example :
    (flag' : FuncFlag) × (body' : Body) × (resolve_function special_func branching [] (ok 0)
      ≡ ok (flag', body'))
    × (body'.instructions.instructions ≡ branching.instructions.instructions)
    × IsCovered body'.instructions.flags 0 (length body'.instructions.instructions)
resolve_function-IsCovered_example =
    resolve_function-IsCovered special_func branching [] 0 refl (omega arith) branching_nested

resolve_function-Grows_example :
    (flag' : FuncFlag) × (body' : Body) × (f' : Flag) × (resolve_function special_func branching []
        (ok 0)
      ≡ ok (flag', body'))
    × (get_elem? (flags_of body'.instructions) 1 ≡ some f')
    × Grows (record default_flag { at_before = probes; at_semantic_after = probes }) f'
resolve_function-Grows_example =
    resolve_function-Grows special_func branching [] 0 refl (omega arith) branching_nested 1
      (record default_flag { at_before = probes; at_semantic_after = probes }) refl

-- The body of `block_exit` stands before the `end` of the block, and the flag of `semantic_after`
-- around the branch.
branching_run :
    Option.map before_of (value (resolve_function special_func branching [] (ok 0)))
    ≡ some
        ([] ∷ (probe ∷ numbered i32_const 1 ∷ numbered local_set 0 ∷ []) ∷ (probe ∷ []) ∷ [] ∷ [])
unfolding resolve_function init flag_add_instr
branching_run = refl

-- if; block; end; else; end; end, with `block_exit` at the `if`: its body is put before the `end` of
-- the inner block, and not before the `else`.
abbrev nested_if : Body
nested_if =
    body_of
      (plain if_op ∷ plain block ∷ plain end_op ∷ plain else_op ∷ plain end_op ∷ plain end_op ∷ [])
      (record default_flag { at_block_exit = probes }
        ∷ default_flag
        ∷ default_flag
        ∷ default_flag
        ∷ default_flag
        ∷ default_flag
        ∷ [])

nested_if_run :
    Option.map before_of (value (resolve_function special_func nested_if [] (ok 0)))
    ≡ some ([] ∷ [] ∷ (probe ∷ []) ∷ [] ∷ [] ∷ [] ∷ [])
unfolding resolve_function init flag_add_instr
nested_if_run = refl
