-- ===== src/Instr/Tests.antt =====
-- The theorems at a small body and a flag in `Before` mode.
use wirm.Base.{ℕ, ◌+◌, ◌≡◌, ◌≢◌, ◌↔◌, refl, false, none, some, [], ◌∷◌, length, get_elem?}
use wirm.Base.Results.{ok}
use wirm.Reindex.{Operator, named}
use wirm.Instr.{
  Flag, Mode, before, block_entry, semantic_after, block_exit, default_flag, add_instr, get_instr,
  instr_len, is_block_style_op, check_special_is_resolved,
}
use wirm.Instr.Flags.{
  Added, instrs_of, is_special, applies, add_instr-Added, get_instr-add_instr,
  check_special_is_resolved_iff,
}
use wirm.Instr.Code.{Instructions, flags_of, new}
use wirm.Instr.Code
use wirm.Instr.Code.Laws.{IsAligned, here, then_edit, pushed, add_instr-adds, Edits-IsAligned}

abbrev nop : Operator
nop = record { op_name = named 1; fields = [] }

abbrev before_flag : Flag
before_flag = record default_flag { current_mode = some before }

abbrev entry_flag : Flag
entry_flag = record default_flag { current_mode = some block_entry }

abbrev added_flag : Flag
added_flag = record before_flag { at_before = record { instrs = nop ∷ []; tag = none } }

abbrev body : Instructions
body = record { instructions = nop ∷ []; offsets = none; flags = some (before_flag ∷ []) }

added : add_instr before_flag nop nop ≡ ok (added_flag, false)
unfolding add_instr
added = refl

add_instr-Added_example :
    (f' : Flag) × (add_instr before_flag nop nop ≡ ok (f', is_special before))
    × Added before before_flag f' nop
add_instr-Added_example = add_instr-Added before_flag before nop nop refl refl

-- A block mode applies to no operator that is not a block.
no_block : (m : Mode) → entry_flag.current_mode ≡ some m → applies m nop ≡ false
unfolding is_block_style_op
no_block block_entry h = refl
no_block before h = cc
no_block _ h = cc

get_instr-add_instr_example :
    (get_instr added_flag (length (instrs_of before before_flag)) ≡ ok nop)
    × (instr_len added_flag ≡ ok (length (instrs_of before before_flag) + 1))
get_instr-add_instr_example =
    get_instr-add_instr before_flag added_flag before nop nop false refl added

check_special_is_resolved_iff_example : (check_special_is_resolved added_flag ≡ ok tt) ↔ (
    (instrs_of semantic_after added_flag ≡ [])
    × (instrs_of block_entry added_flag ≡ [])
    × (instrs_of block_exit added_flag ≡ [])
    × (added_flag.at_block_alt ≡ none))
check_special_is_resolved_iff_example = check_special_is_resolved_iff added_flag

add_instr-adds_example :
    (i' : Instructions) × (flag' : Flag) × (Code.add_instr body 0 nop ≡ ok (i', false))
    × Added before before_flag flag' nop
    × (get_elem? (flags_of i') 0 ≡ some flag')
    × ((k : ℕ) → k ≢ 0 → get_elem? (flags_of i') k ≡ get_elem? (flags_of body) k)
    × (i'.instructions ≡ body.instructions)
    × IsAligned i'
add_instr-adds_example = add_instr-adds body 0 before_flag nop nop before refl refl refl refl refl

Edits-IsAligned_example : IsAligned (Code.push (new ((nop, 0) ∷ []) 0 false) nop)
Edits-IsAligned_example = Edits-IsAligned ((nop, 0) ∷ []) 0 false _ (then_edit here (pushed nop))
