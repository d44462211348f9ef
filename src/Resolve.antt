-- ===== src/Resolve.antt =====
-- ir/module/mod.rs, the helpers of `resolve_special_instrumentation`: each turns a special mode of
-- instrumentation into operators before, after or in place of the operators of the body, at once or
-- when the `else` or the `end` of a block is reached.
pub mod Run
mod Tests
pub mod Round
pub mod Rounds
pub mod Whole
pub mod Plans
pub mod Arms
pub mod Steps
pub mod Laws
use wirm.Base.{
  ℕ, ◌+◌, ◌-◌, Bool, true, false, none, some, List, [], ◌∷◌, ◌++◌, length, ltb, ◌==◌, if◌then◌else◌,
}
use wirm.Base.Maps.{HashMap, get, insert}
use wirm.Base.Results.{Result, ok, panic, ◌>>=◌}
use wirm.Reindex.{
  Operator, OpName, other_field, block, loop, if_op, else_op, end_op, try_table, br, br_if,
  br_table, br_on_cast, br_on_cast_fail, br_on_null, br_on_non_null, return_op, return_call,
  return_call_indirect, return_call_ref, unreachable, throw, rethrow, throw_ref, resume_throw,
  i32_const, local_get, local_set,
}
use wirm.Instr.{
  Mode, before, after, alternate, semantic_after, block_entry, block_exit, block_alt, is_empty,
  is_block_style_op,
}
use wirm.Body.{i32, wrap32}
use wirm.Modifier.{
  Modifier, before_at, after_at, alternate_at, set_instrument_mode_at, inject, inject_all,
  clear_instr_at, empty_alternate_at, modifier_add_local,
}

-- The operators that `builder.end()`, `else_stmt`, `if_stmt(BlockType::Empty)` and the like inject. A
-- number that one carries, as its local or its block type, is its field.
abbrev pub plain : OpName → Operator
plain n = record { op_name = n; fields = [] }

abbrev pub numbered : OpName → ℕ → Operator
numbered n k = record {
  op_name = n;
  fields = record { name = other_field; index = k; payload = [] } ∷ [];
}

-- The number that a branch carries, its relative depth; of `br_table` its default.
unfoldable pub relative_depth : Operator → ℕ
relative_depth op = elim op.fields [ [] ↦ 0 | f ∷ _ ↦ f.index ]

-- The targets of `br_table` other than the default.
unfoldable pub br_targets : Operator → List ℕ
br_targets op = elim op.fields [ [] ↦ [] | f ∷ _ ↦ f.payload ]

-- `InstrBodyFlagged` and `InstrToInject`
pub record InstrBodyFlagged : Type 0 where
  pub instrs : List Operator
  pub bool_flag : ℕ

pub record InstrToInject : Type 0 where
  pub flagged : List InstrBodyFlagged
  pub not_flagged : List (List Operator)

-- `HashMap<InstrumentationMode, InstrToInject>`, its entries in the order of an iteration, which Rust
-- leaves open; only `Before` and `After` are keys.
abbrev pub ModeMap : Type 0
ModeMap = List (Mode × InstrToInject)

abbrev pub same_mode : Mode → Mode → Bool
same_mode before before = true
same_mode after after = true
same_mode alternate alternate = true
same_mode semantic_after semantic_after = true
same_mode block_entry block_entry = true
same_mode block_exit block_exit = true
same_mode block_alt block_alt = true
same_mode _ _ = false

-- `entry(mode).and_modify(change).or_insert(fresh)`
unfoldable pub upsert_mode :
    Mode → (InstrToInject → InstrToInject) → InstrToInject → ModeMap → ModeMap
upsert_mode mode change fresh [] = (mode, fresh) ∷ []
upsert_mode mode change fresh ((m, x) ∷ rest) =
    if same_mode m mode then (m, change x) ∷ rest else (m, x) ∷ upsert_mode mode change fresh rest

-- `entry(block_id).and_modify(change).or_insert(fresh)`
unfoldable pub upsert_block : ℕ → (ModeMap → ModeMap) → ModeMap → HashMap ModeMap → HashMap ModeMap
unfolding get insert
upsert_block id change fresh m =
    insert id (elim (get id m) [ none ↦ fresh | some old ↦ change old ]) m

abbrev pub push_not_flagged : List Operator → InstrToInject → InstrToInject
push_not_flagged body x = record x { not_flagged = x.not_flagged ++ body ∷ [] }

abbrev pub push_flagged : InstrBodyFlagged → InstrToInject → InstrToInject
push_flagged body x = record x { flagged = x.flagged ++ body ∷ [] }

unfoldable pub save_not_flagged_body_to_resolve_inner : ModeMap → Mode → List Operator → ModeMap
unfolding upsert_mode
save_not_flagged_body_to_resolve_inner inner mode body =
    upsert_mode mode (push_not_flagged body) (record { flagged = []; not_flagged = body ∷ [] })
      inner

unfoldable pub save_not_flagged_body_to_resolve :
    HashMap ModeMap → Mode → List Operator → ℕ → HashMap ModeMap
unfolding upsert_block save_not_flagged_body_to_resolve_inner
save_not_flagged_body_to_resolve resolve_on_end mode body block_id =
    upsert_block block_id (λ m. save_not_flagged_body_to_resolve_inner m mode body)
      ((mode, record { flagged = []; not_flagged = body ∷ [] }) ∷ []) resolve_on_end

-- A body with its flag, saved for the end of a block.
unfoldable pub insert_flagged : HashMap ModeMap → Mode → InstrBodyFlagged → ℕ → HashMap ModeMap
unfolding upsert_block upsert_mode
insert_flagged to_resolve mode body block_id =
    upsert_block block_id
      (upsert_mode mode (push_flagged body) (record { flagged = body ∷ []; not_flagged = [] }))
      ((mode, record { flagged = body ∷ []; not_flagged = [] }) ∷ []) to_resolve

-- `curr_block - relative_depth` wraps around on `u32` in a release build.
unfoldable pub save_flagged_body_to_resolve :
    HashMap ModeMap → Mode → List Operator → ℕ → ℕ → ℕ → HashMap ModeMap
unfolding insert_flagged
save_flagged_body_to_resolve to_resolve mode body bool_flag_id depth curr_block =
    insert_flagged to_resolve mode (record { instrs = body; bool_flag = bool_flag_id })
      (wrap32 (curr_block + 4294967296 - depth))

-- `before_at`, `after_at` or `alternate_at`, and then `inject_all`.
unfoldable pub inject_in : Modifier → Mode → ℕ → List Operator → Result Modifier
unfolding set_instrument_mode_at inject_all
inject_in b mode idx body = do b' ← set_instrument_mode_at b mode idx; inject_all b' body

-- The modifier, and what is left of the function's entry body.
unfoldable pub resolve_function_entry :
    Modifier → List Operator → ℕ → Result (Modifier × List Operator)
unfolding inject_in
resolve_function_entry b on_entry idx =
    if idx == 0 then (do b' ← inject_in b before idx on_entry; ok (b', [])) else ok (b, on_entry)

-- `block_ty` is the type of a block with the function's results.
abbrev pub resolve_function_exit_with_block_wrapper : List Operator → ℕ → List Operator
resolve_function_exit_with_block_wrapper on_entry block_ty =
    on_entry ++ numbered block block_ty ∷ []

-- The operators that leave the function.
unfoldable pub leaves_function : Operator → Bool
leaves_function op = elim op.op_name [
  | return_op ↦ true
  | return_call ↦ true
  | return_call_indirect ↦ true
  | return_call_ref ↦ true
  | unreachable ↦ true
  | throw ↦ true
  | rethrow ↦ true
  | throw_ref ↦ true
  | resume_throw ↦ true
  | _ ↦ false
]

unfoldable pub resolve_function_exit :
    Modifier → List Operator → Operator → ℕ → Result (Modifier × List Operator)
unfolding leaves_function inject_in
resolve_function_exit b on_exit op idx =
    if leaves_function op
    then (do b' ← inject_in b before idx on_exit; ok (b', on_exit))
    else if idx == length b.body.instructions.instructions - 1
    then (do b' ← inject_in b before idx (plain end_op ∷ on_exit); ok (b', []))
    else ok (b, on_exit)

unfoldable pub resolve_block_entry : Modifier → List Operator → Operator → ℕ → Result Modifier
unfolding is_block_style_op inject_in
resolve_block_entry b body op idx =
    if is_block_style_op op then inject_in b after idx body else ok b

-- The operators whose `end` closes the block of `block_exit`; that of an `if` is closed by its `else`.
unfoldable pub closed_by_end : Operator → Bool
closed_by_end op = elim op.op_name [
  | block ↦ true
  | loop ↦ true
  | else_op ↦ true
  | try_table ↦ true
  | _ ↦ false
]

abbrev pub is_if : Operator → Bool
is_if op = elim op.op_name [ if_op ↦ true | _ ↦ false ]

-- `block_stack.last().unwrap()`, the stack with its last element first.
abbrev pub last : List ℕ → Result ℕ
last [] = panic
last (id ∷ ids) = ok id

-- What waits for the next `else` or `end`, and what waits for the `end` of a block.
unfoldable pub plan_resolution_block_exit :
    List Operator
    → List ℕ
    → ModeMap
    → HashMap ModeMap
    → Operator
    → Result (ModeMap × HashMap ModeMap)
unfolding closed_by_end save_not_flagged_body_to_resolve save_not_flagged_body_to_resolve_inner
plan_resolution_block_exit body block_stack on_else_or_end on_end op =
    if is_if op
    then ok (save_not_flagged_body_to_resolve_inner on_else_or_end before body, on_end)
    else if closed_by_end op
    then (do
      block_id ← last block_stack
      ok (on_else_or_end, save_not_flagged_body_to_resolve on_end before body block_id))
    else ok (on_else_or_end, on_end)

unfoldable pub clear_special_instr_at : Modifier → ℕ → Result Modifier
unfolding clear_instr_at
clear_special_instr_at b idx = do
  b1 ← clear_instr_at b idx block_alt
  b2 ← clear_instr_at b1 idx block_entry
  b3 ← clear_instr_at b2 idx block_exit
  clear_instr_at b3 idx semantic_after

abbrev pub is_else : Operator → Bool
is_else op = elim op.op_name [ else_op ↦ true | _ ↦ false ]

-- Whether the block is replaced, and whether its `end` stays: that of an `else` has to.
unfoldable pub plan_resolution_block_alt :
    List Operator → Modifier → Bool → Operator → ℕ → Result (Bool × Bool × Modifier)
unfolding is_block_style_op inject_in empty_alternate_at
plan_resolution_block_alt body b retain_end op idx =
    if is_block_style_op op
    then (do
      b' ← (if is_empty body then empty_alternate_at b idx else inject_in b alternate idx body)
      ok (true, is_else op, b'))
    else ok (false, retain_end, b)

-- The branches that may fall through.
unfoldable pub may_fall_through : Operator → Bool
may_fall_through op = elim op.op_name [
  | br_if ↦ true
  | br_on_cast ↦ true
  | br_on_cast_fail ↦ true
  | br_on_null ↦ true
  | br_on_non_null ↦ true
  | _ ↦ false
]

-- The local `id` is set to 1 before the branch and to 0 after it.
unfoldable pub place_bool_flag : Modifier → ℕ → ℕ → Operator → List Operator → Result Modifier
unfolding inject_all may_fall_through set_instrument_mode_at
place_bool_flag b id idx op body = do
  b1 ← before_at b idx
  b2 ← inject_all b1 (numbered i32_const 1 ∷ numbered local_set id ∷ [])
  b3 ← after_at b2 idx
  b4 ← inject_all b3 (numbered i32_const 0 ∷ numbered local_set id ∷ [])
  (if may_fall_through op then inject_all b4 body else ok b4)

-- The same with a new local.
unfoldable pub create_bool_flag : Modifier → ℕ → Operator → List Operator → Result (ℕ × Modifier)
unfolding modifier_add_local place_bool_flag
create_bool_flag b idx op body = do
  let (id, b0) = modifier_add_local b i32
  b' ← place_bool_flag b0 id idx op body
  ok (id, b')

-- The targets of a `br_table`, one after another.
unfoldable pub save_targets : HashMap ModeMap → List Operator → ℕ → List ℕ → ℕ → HashMap ModeMap
unfolding save_flagged_body_to_resolve
save_targets on_end body id [] curr_block = on_end
save_targets on_end body id (target ∷ targets) curr_block =
    save_targets (save_flagged_body_to_resolve on_end after body id target curr_block) body id
      targets curr_block

abbrev pub is_br_table : Operator → Bool
is_br_table op = elim op.op_name [ br_table ↦ true | _ ↦ false ]

-- The branches with one target.
unfoldable pub is_single_branch : Operator → Bool
is_single_branch op = elim op.op_name [
  | br ↦ true
  | br_if ↦ true
  | br_on_cast ↦ true
  | br_on_cast_fail ↦ true
  | br_on_null ↦ true
  | br_on_non_null ↦ true
  | _ ↦ false
]

unfoldable pub plan_resolution_semantic_after :
    List Operator
    → Modifier
    → List ℕ
    → HashMap ModeMap
    → Operator
    → ℕ
    → Result (HashMap ModeMap × Modifier)
unfolding is_block_style_op save_not_flagged_body_to_resolve create_bool_flag save_targets
    br_targets relative_depth is_single_branch save_flagged_body_to_resolve
plan_resolution_semantic_after body b block_stack on_end op idx =
    if is_block_style_op op
    then (do
      block_id ← last block_stack
      ok (save_not_flagged_body_to_resolve on_end after body block_id, b))
    else if is_br_table op
    then (do
      (id, b') ← create_bool_flag b idx op body
      curr_block ← last block_stack
      ok (save_targets on_end body id (br_targets op ++ relative_depth op ∷ []) curr_block, b'))
    else if is_single_branch op
    then (do
      (id, b') ← create_bool_flag b idx op body
      curr_block ← last block_stack
      ok (save_flagged_body_to_resolve on_end after body id (relative_depth op) curr_block, b'))
    else ok (on_end, b)

-- `before_at` or `after_at`; no other mode is planned.
unfoldable pub resolve_mode_at : Modifier → Mode → ℕ → Result Modifier
unfolding set_instrument_mode_at
resolve_mode_at b before idx = before_at b idx
resolve_mode_at b after idx = after_at b idx
resolve_mode_at b _ idx = panic

-- `else_stmt` where an `if` has been injected already.
abbrev pub else_unless_first : Bool → List Operator
else_unless_first true = []
else_unless_first false = plain else_op ∷ []

-- The bodies with a flag, each in the `else` of the one before it.
unfoldable pub resolve_flagged :
    Modifier → Mode → ℕ → Bool → List InstrBodyFlagged → Result Modifier
unfolding resolve_mode_at inject_all
resolve_flagged b mode idx is_first [] = ok b
resolve_flagged b mode idx is_first (f ∷ rest) = do
  b1 ← resolve_mode_at b mode idx
  b2 ← inject_all b1 (else_unless_first is_first)
  b3 ← inject_all b2 (numbered local_get f.bool_flag ∷ plain if_op ∷ [])
  b4 ← inject_all b3 f.instrs
  resolve_flagged b4 mode idx false rest

unfoldable pub inject_ends : Modifier → List InstrBodyFlagged → Result Modifier
unfolding inject
inject_ends b [] = ok b
inject_ends b (f ∷ rest) = do b' ← inject b (plain end_op); inject_ends b' rest

unfoldable pub inject_bodies : Modifier → List (List Operator) → Result Modifier
unfolding inject_all
inject_bodies b [] = ok b
inject_bodies b (body ∷ rest) = do b' ← inject_all b body; inject_bodies b' rest

unfoldable pub resolve_bodies : Modifier → Mode → InstrToInject → ℕ → Result Modifier
unfolding resolve_flagged inject_ends inject_bodies resolve_mode_at
resolve_bodies b mode x idx = do
  b1 ← resolve_flagged b mode idx true x.flagged
  b2 ← inject_ends b1 x.flagged
  b3 ← resolve_mode_at b2 mode idx
  inject_bodies b3 x.not_flagged

-- Every entry of the map.
unfoldable pub resolve_all : Modifier → ModeMap → ℕ → Result Modifier
unfolding resolve_bodies
resolve_all b [] idx = ok b
resolve_all b ((mode, x) ∷ rest) idx = do b' ← resolve_bodies b mode x idx; resolve_all b' rest idx
