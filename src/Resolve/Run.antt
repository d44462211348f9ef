-- ===== src/Resolve/Run.antt =====
-- ir/module/mod.rs, `resolve_special_instrumentation` on one local function: the loop over the
-- operators of the body, which keeps the stack of open blocks, the block that is being deleted and
-- the instrumentation that waits for the end of a block.
use wirm.Base.{
  ℕ, suc, Bool, true, false, not, Option, none, some, List, [], ◌∷◌, length, ◌==◌, if◌then◌else◌,
}
use wirm.Base.Maps.{HashMap, get}
use wirm.Base.Results.{Result, ok, ◌>>=◌}
use wirm.Reindex.{Operator, block, loop, if_op, else_op, end_op, try_table, try_op}
use wirm.Instr.{
  Flag, semantic_after, block_entry, block_exit, InjectedInstrs, is_empty, is_none, has_instr,
}
use wirm.Instr.Code.{flags_of}
use wirm.Body.{Body}
use wirm.Modifier.{Modifier, FuncFlag, func_finish_instr, init, clear_instr_at, empty_alternate_at}
use wirm.Resolve.{
  ModeMap, resolve_function_entry, resolve_function_exit, resolve_function_exit_with_block_wrapper,
  resolve_block_entry, plan_resolution_block_exit, plan_resolution_block_alt,
  plan_resolution_semantic_after, clear_special_instr_at, resolve_all, last,
}

-- What the loop changes. The stack has its last element first. A function body that is absent and
-- one that is empty are treated alike, so both are lists.
pub record Resolving : Type 0 where
  pub builder : Modifier
  pub on_entry : List Operator
  pub on_exit : List Operator
  pub block_stack : List ℕ
  pub delete_block : Option ℕ
  pub retain_end : Bool
  pub on_else_or_end : ModeMap
  pub on_end : HashMap ModeMap

-- The arms of the `match` on the operator.
pub data Arm : Type 0 where
  opens alternates closes other : Arm

unfoldable pub arm_of : Operator → Arm
arm_of op = elim op.op_name [
  | block ↦ opens
  | loop ↦ opens
  | if_op ↦ opens
  | try_table ↦ opens
  | try_op ↦ opens
  | else_op ↦ alternates
  | end_op ↦ closes
  | _ ↦ other
]

-- The function-level instrumentation, where its bodies are not empty.
unfoldable pub entry_step : Resolving → ℕ → Result Resolving
unfolding resolve_function_entry
entry_step s idx = if is_empty s.on_entry then ok s else (do
  (b, on_entry) ← resolve_function_entry s.builder s.on_entry idx
  ok (record s { builder = b; on_entry = on_entry }))

unfoldable pub exit_step : Resolving → Operator → ℕ → Result Resolving
unfolding resolve_function_exit
exit_step s op idx = if is_empty s.on_exit then ok s else (do
  (b, on_exit) ← resolve_function_exit s.builder s.on_exit op idx
  ok (record s { builder = b; on_exit = on_exit }))

-- The operator is deleted and its instrumentation dropped. The Boolean of a step says whether the
-- rest of the round is skipped (`continue`).
unfoldable pub drop_op : Resolving → ℕ → Result (Resolving × Bool)
unfolding clear_special_instr_at empty_alternate_at
drop_op s idx = do
  b ← clear_special_instr_at s.builder idx
  b' ← empty_alternate_at b idx
  ok (record s { builder = b' }, true)

-- `if delete_block.is_some() { ...; continue; }`
unfoldable pub drop_if_deleting : Resolving → ℕ → Result (Resolving × Bool)
unfolding drop_op
drop_if_deleting s idx = if is_none s.delete_block then ok (s, false) else drop_op s idx

-- What follows `plan_resolution_block_alt`, by whether it matched.
unfoldable pub after_alt : Resolving → Bool × Bool × Modifier → ℕ → Result (Resolving × Bool)
unfolding clear_special_instr_at drop_if_deleting
after_alt s (true, retain_end, b) idx = do
  b' ← clear_special_instr_at b idx
  block_id ← last s.block_stack
  ok (record s { builder = b'; retain_end = retain_end; delete_block = some block_id }, true)
after_alt s (false, retain_end, b) idx =
    drop_if_deleting (record s { builder = b; retain_end = retain_end }) idx

-- `block_alt` is looked at unless a block is being deleted.
unfoldable pub alt_step :
    Resolving → Option InjectedInstrs → Operator → ℕ → Result (Resolving × Bool)
unfolding drop_if_deleting after_alt plan_resolution_block_alt
alt_step s none op idx = drop_if_deleting s idx
alt_step s (some alt) op idx =
    if is_none s.delete_block
    then (do
      planned ← plan_resolution_block_alt alt.instrs s.builder s.retain_end op idx
      after_alt s planned idx)
    else drop_if_deleting s idx

-- What waits for an `else` or an `end` is put before it or after it.
unfoldable pub flush_else_or_end : Resolving → ℕ → Result Resolving
unfolding resolve_all
flush_else_or_end s idx = do
  b ← resolve_all s.builder s.on_else_or_end idx
  ok (record s { builder = b; on_else_or_end = [] })

-- `resolve_on_end.remove(&block_id)`
unfoldable pub remove_block : ℕ → HashMap ModeMap → HashMap ModeMap
remove_block id [] = []
remove_block id ((k, m) ∷ rest) = if k == id then rest else (k, m) ∷ remove_block id rest

abbrev pub or_no_modes : Option ModeMap → ModeMap
or_no_modes none = []
or_no_modes (some m) = m

-- What waits for the end of the block.
unfoldable pub flush_end : Resolving → ℕ → ℕ → Result Resolving
unfolding resolve_all remove_block get
flush_end s block_id idx = do
  b ← resolve_all s.builder (or_no_modes (get block_id s.on_end)) idx
  ok (record s { builder = b; on_end = remove_block block_id s.on_end })

unfoldable pub flush : Resolving → ℕ → ℕ → Result (Resolving × Bool)
unfolding flush_else_or_end flush_end
flush s block_id idx = do
  s' ← flush_else_or_end s idx
  s'' ← flush_end s' block_id idx
  ok (s'', false)

-- The end of the block that was being deleted: it stays where `retain_end` said so.
unfoldable pub end_deleted : Bool → Resolving → ℕ → ℕ → Result (Resolving × Bool)
unfolding drop_op flush
end_deleted false s block_id idx = drop_op s idx
end_deleted true s block_id idx = flush s block_id idx

-- The `end` of block `block_id`, by the block that is being deleted.
unfoldable pub close_block : Option ℕ → Resolving → ℕ → ℕ → Result (Resolving × Bool)
unfolding drop_op flush end_deleted
close_block none s block_id idx = flush s block_id idx
close_block (some deleted) s block_id idx =
    if deleted == block_id
    then end_deleted s.retain_end (record s { delete_block = none; retain_end = true }) block_id idx
    else drop_op s idx

-- An `end` without an open block does nothing.
unfoldable pub end_step : Resolving → List ℕ → ℕ → Result (Resolving × Bool)
unfolding close_block
end_step s [] idx = ok (s, false)
end_step s (block_id ∷ stack) idx =
    close_block s.delete_block (record s { block_stack = stack }) block_id idx

-- The `match` on the operator.
unfoldable pub arm_step : Resolving → Arm → Flag → Operator → ℕ → Result (Resolving × Bool)
unfolding alt_step flush_else_or_end end_step drop_if_deleting
arm_step s opens f op idx =
    alt_step (record s { block_stack = length s.block_stack ∷ s.block_stack }) f.at_block_alt op idx
arm_step s alternates f op idx = do s' ← flush_else_or_end s idx; alt_step s' f.at_block_alt op idx
arm_step s closes f op idx = end_step s s.block_stack idx
arm_step s other f op idx = drop_if_deleting s idx

unfoldable pub block_entry_step : Resolving → List Operator → Operator → ℕ → Result Resolving
unfolding resolve_block_entry clear_instr_at
block_entry_step s body op idx = if is_empty body then ok s else (do
  b ← resolve_block_entry s.builder body op idx
  b' ← clear_instr_at b idx block_entry
  ok (record s { builder = b' }))

unfoldable pub block_exit_step : Resolving → List Operator → Operator → ℕ → Result Resolving
unfolding plan_resolution_block_exit clear_instr_at
block_exit_step s body op idx = if is_empty body then ok s else (do
  (on_else_or_end, on_end) ←
      plan_resolution_block_exit body s.block_stack s.on_else_or_end s.on_end op
  b ← clear_instr_at s.builder idx block_exit
  ok (record s { builder = b; on_else_or_end = on_else_or_end; on_end = on_end }))

unfoldable pub semantic_after_step : Resolving → List Operator → Operator → ℕ → Result Resolving
unfolding plan_resolution_semantic_after clear_instr_at
semantic_after_step s body op idx = if is_empty body then ok s else (do
  (on_end, b) ← plan_resolution_semantic_after body s.builder s.block_stack s.on_end op idx
  b' ← clear_instr_at b idx semantic_after
  ok (record s { builder = b'; on_end = on_end }))

-- The instruction-level special modes but `block_alt`.
unfoldable pub plan_step : Resolving → Flag → Operator → ℕ → Result Resolving
unfolding block_entry_step block_exit_step semantic_after_step has_instr
plan_step s f op idx = if not (has_instr f) then ok s else (do
  s1 ← block_entry_step s f.at_block_entry.instrs op idx
  s2 ← block_exit_step s1 f.at_block_exit.instrs op idx
  semantic_after_step s2 f.at_semantic_after.instrs op idx)

-- One round.
unfoldable pub round : Resolving → Flag → Operator → ℕ → Result Resolving
unfolding entry_step exit_step arm_step arm_of plan_step
round s f op idx = do
  s1 ← entry_step s idx
  s2 ← exit_step s1 op idx
  (s3, skip) ← arm_step s2 (arm_of op) f op idx
  (if skip then ok s3 else plan_step s3 f op idx)

-- The loop over copies of the operators and of their flags, as far as both go.
unfoldable pub rounds : Resolving → List Operator → List Flag → ℕ → Result Resolving
unfolding round
rounds s [] flags idx = ok s
rounds s (op ∷ ops) [] idx = ok s
rounds s (op ∷ ops) (f ∷ flags) idx = do s' ← round s f op idx; rounds s' ops flags (suc idx)

-- The wrapping block for the function's exit. `exit_block_ty` is what `add_func_type_internal` gives
-- for the function's results.
unfoldable pub wrapped_entry : List Operator → List Operator → Result ℕ → Result (List Operator)
wrapped_entry on_entry on_exit exit_block_ty = if is_empty on_exit then ok on_entry else (do
  block_ty ← exit_block_ty
  ok (resolve_function_exit_with_block_wrapper on_entry block_ty))

abbrev pub start : Modifier → List Operator → List Operator → Resolving
start b on_entry on_exit = record {
  builder = b;
  on_entry = on_entry;
  on_exit = on_exit;
  block_stack = 0 ∷ [];
  delete_block = none;
  retain_end = true;
  on_else_or_end = [];
  on_end = [];
}

-- The function's own lists cleared, once they are copied.
abbrev pub cleared_flag : FuncFlag → FuncFlag
cleared_flag flag = record flag {
  entry = record flag.entry { instrs = [] };
  exit = record flag.exit { instrs = [] };
}

-- One local function that has special instrumentation: its flag and its body after the loop.
-- `get_fn_modifier` resets the mode of the function's flag. The side effects are not collected.
unfoldable pub resolve_special : FuncFlag → Body → List ℕ → Result ℕ → Result (FuncFlag × Body)
unfolding wrapped_entry func_finish_instr rounds
resolve_special flag body args exit_block_ty = do
  on_entry ← wrapped_entry flag.entry.instrs flag.exit.instrs exit_block_ty
  b ← init (func_finish_instr (cleared_flag flag)) body args
  s ←
      rounds (start b on_entry flag.exit.instrs) b.body.instructions.instructions
        (flags_of b.body.instructions) 0
  ok (s.builder.instr_flag, s.builder.body)

-- A function without is left alone.
unfoldable pub resolve_function : FuncFlag → Body → List ℕ → Result ℕ → Result (FuncFlag × Body)
unfolding resolve_special
resolve_function flag body args exit_block_ty =
    if not flag.has_special_instr
    then ok (flag, body)
    else resolve_special flag body args exit_block_ty
