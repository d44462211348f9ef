-- ===== src/Instr.antt =====
-- ir/types.rs, `InjectedInstrs` and `InstrumentationFlag`: the operators that an instrumentation
-- has put around one operator of a function's body, by mode.
pub mod Flags
pub mod Code
mod Tests
use wirm.Base.{
  ℕ, Bool, true, false, not, ◌||◌, Option, none, some, List, [], ◌∷◌, ◌++◌, length, get_elem?,
  if◌then◌else◌,
}
use wirm.Base.Results.{
  Result, ok, err, panic, or_panic, Error, instrumentation_error, text, with_id,
}
use wirm.Reindex.{
  Operator, OpName, block, loop, if_op, else_op, try_table, br, br_if, br_table, br_on_cast,
  br_on_cast_fail, br_on_null, br_on_non_null,
}

-- `Tag`, its `data`.
pub record Tag : Type 0 where
  pub bytes : List ℕ

pub record InjectedInstrs : Type 0 where
  pub instrs : List Operator
  pub tag : Option Tag

abbrev pub no_instrs : InjectedInstrs
no_instrs = record { instrs = []; tag = none }

-- `InstrumentationMode`
pub data Mode : Type 0 where
  before after alternate semantic_after block_entry block_exit block_alt : Mode

-- `InstrumentationFlag`. The alternate `none` keeps the operator, and an empty one removes it (the
-- comments of the source say the opposite); `at_block_alt` is read in the same way.
pub record Flag : Type 0 where
  pub current_mode : Option Mode
  pub at_before : InjectedInstrs
  pub at_after : InjectedInstrs
  pub at_alternate : Option InjectedInstrs
  pub at_semantic_after : InjectedInstrs
  pub at_block_entry : InjectedInstrs
  pub at_block_exit : InjectedInstrs
  pub at_block_alt : Option InjectedInstrs

-- `InstrumentationFlag::default()`
abbrev pub default_flag : Flag
default_flag = record {
  current_mode = none;
  at_before = no_instrs;
  at_after = no_instrs;
  at_alternate = none;
  at_semantic_after = no_instrs;
  at_block_entry = no_instrs;
  at_block_exit = no_instrs;
  at_block_alt = none;
}

abbrev pub is_empty {ℓ} : {A : Type ℓ} → List A → Bool
is_empty [] = true
is_empty (x ∷ xs) = false

abbrev pub is_none {ℓ} : {A : Type ℓ} → Option A → Bool
is_none none = true
is_none (some x) = false

unfoldable pub has_instr : Flag → Bool
has_instr f =
    not (is_empty f.at_before.instrs)
    || (not (is_empty f.at_after.instrs)
        || (not (is_none f.at_alternate)
            || (not (is_empty f.at_semantic_after.instrs)
                || (not (is_empty f.at_block_entry.instrs)
                    || (not (is_empty f.at_block_exit.instrs) || not (is_none f.at_block_alt))))))

unfoldable pub check_special_is_resolved : Flag → Result (Unit {0})
check_special_is_resolved f =
    if not (is_empty f.at_semantic_after.instrs)
    then err (
        instrumentation_error
          (text "BUG: Semantic after instrumentation should be resolved already, please report."))
    else if not (is_empty f.at_block_entry.instrs)
    then err (
        instrumentation_error
          (text "BUG: Block entry instrumentation should be resolved already, please report."))
    else if not (is_empty f.at_block_exit.instrs)
    then err (
        instrumentation_error
          (text "BUG: Block exit instrumentation should be resolved already, please report."))
    else if not (is_none f.at_block_alt)
    then err (
        instrumentation_error
          (text "BUG: Block alt instrumentation should be resolved already, please report."))
    else ok tt

unfoldable pub is_block_style_op : Operator → Bool
is_block_style_op op = elim op.op_name [
  | block ↦ true
  | loop ↦ true
  | if_op ↦ true
  | else_op ↦ true
  | try_table ↦ true
  | _ ↦ false
]

unfoldable pub is_branching_op : Operator → Bool
is_branching_op op = elim op.op_name [
  | br ↦ true
  | br_if ↦ true
  | br_table ↦ true
  | br_on_cast ↦ true
  | br_on_cast_fail ↦ true
  | br_on_null ↦ true
  | br_on_non_null ↦ true
  | _ ↦ false
]

-- `instrs.push(val)`
abbrev pub push_to : InjectedInstrs → Operator → InjectedInstrs
push_to i val = record i { instrs = i.instrs ++ val ∷ [] }

-- The same where `None` stands for no list yet.
abbrev pub push_or_new : Option InjectedInstrs → Operator → InjectedInstrs
push_or_new none val = record { instrs = val ∷ []; tag = none }
push_or_new (some i) val = push_to i val

-- `add_instr` in a mode that is set: the new flag, and whether the mode is a special one.
unfoldable pub add_in_mode : Mode → Flag → Operator → Operator → Result (Flag × Bool)
unfolding is_block_style_op is_branching_op
add_in_mode before f op val = ok (record f { at_before = push_to f.at_before val }, false)
add_in_mode after f op val = ok (record f { at_after = push_to f.at_after val }, false)
add_in_mode alternate f op val =
    ok (record f { at_alternate = some (push_or_new f.at_alternate val) }, false)
add_in_mode semantic_after f op val =
    if is_block_style_op op || is_branching_op op
    then ok (record f { at_semantic_after = push_to f.at_semantic_after val }, true)
    else panic
add_in_mode block_entry f op val =
    if is_block_style_op op
    then ok (record f { at_block_entry = push_to f.at_block_entry val }, true)
    else panic
add_in_mode block_exit f op val =
    if is_block_style_op op
    then ok (record f { at_block_exit = push_to f.at_block_exit val }, true)
    else panic
add_in_mode block_alt f op val =
    if is_block_style_op op
    then ok (record f { at_block_alt = some (push_or_new f.at_block_alt val) }, true)
    else panic

unfoldable pub add_instr : Flag → Operator → Operator → Result (Flag × Bool)
unfolding add_in_mode
add_instr f op val = elim f.current_mode [ none ↦ panic | some m ↦ add_in_mode m f op val ]

-- The list of a mode, which is absent where an optional one is `None`.
abbrev pub slot : Mode → Flag → Option InjectedInstrs
slot before f = some f.at_before
slot after f = some f.at_after
slot alternate f = f.at_alternate
slot semantic_after f = some f.at_semantic_after
slot block_entry f = some f.at_block_entry
slot block_exit f = some f.at_block_exit
slot block_alt f = f.at_block_alt

abbrev pub len_of : Option InjectedInstrs → ℕ
len_of none = 0
len_of (some i) = length i.instrs

unfoldable pub instr_len : Flag → Result ℕ
instr_len f = elim f.current_mode [ none ↦ panic | some m ↦ ok (len_of (slot m f)) ]

-- The error of `get_instr` where the list of a mode is absent.
abbrev no_instrs_to_pull : Mode → ℕ → Error
no_instrs_to_pull alternate idx =
    instrumentation_error (with_id "No alternate instructions to pull idx '" idx "' from")
no_instrs_to_pull _ idx =
    instrumentation_error (with_id "No block alt instructions to pull idx '" idx "' from")

abbrev pub pull : Mode → Option InjectedInstrs → ℕ → Result Operator
pull m none idx = err (no_instrs_to_pull m idx)
pull m (some i) idx = or_panic (get_elem? i.instrs idx)

unfoldable pub get_instr : Flag → ℕ → Result Operator
get_instr f idx = elim f.current_mode [
  | none ↦ err (
      instrumentation_error
        (text "Current mode is not set...cannot grab instruction without context!"))
  | some m ↦ pull m (slot m f) idx
]

unfoldable pub clear_instr : Flag → Mode → Flag
clear_instr f before = record f { at_before = record f.at_before { instrs = [] } }
clear_instr f after = record f { at_after = record f.at_after { instrs = [] } }
clear_instr f alternate = record f { at_alternate = none }
clear_instr f semantic_after = record f {
  at_semantic_after = record f.at_semantic_after { instrs = [] };
}
clear_instr f block_entry = record f { at_block_entry = record f.at_block_entry { instrs = [] } }
clear_instr f block_exit = record f { at_block_exit = record f.at_block_exit { instrs = [] } }
clear_instr f block_alt = record f { at_block_alt = none }

unfoldable pub finish_instr : Flag → Flag
finish_instr f = record f { current_mode = none }

-- `get_or_create_tag().data.append(data)` on one list.
abbrev pub append_to_instrs : InjectedInstrs → List ℕ → InjectedInstrs
append_to_instrs i bytes = record i {
  tag = some (elim i.tag [
    | none ↦ record { bytes = bytes }
    | some t ↦ record { bytes = t.bytes ++ bytes }
  ]);
}

-- The same after `get_or_insert_default()`.
abbrev pub append_or_new : Option InjectedInstrs → List ℕ → InjectedInstrs
append_or_new none bytes = append_to_instrs no_instrs bytes
append_or_new (some i) bytes = append_to_instrs i bytes

unfoldable pub append_in_mode : Mode → Flag → List ℕ → Flag
append_in_mode before f bytes = record f { at_before = append_to_instrs f.at_before bytes }
append_in_mode after f bytes = record f { at_after = append_to_instrs f.at_after bytes }
append_in_mode alternate f bytes = record f {
  at_alternate = some (append_or_new f.at_alternate bytes);
}
append_in_mode semantic_after f bytes = record f {
  at_semantic_after = append_to_instrs f.at_semantic_after bytes;
}
append_in_mode block_entry f bytes = record f {
  at_block_entry = append_to_instrs f.at_block_entry bytes;
}
append_in_mode block_exit f bytes = record f {
  at_block_exit = append_to_instrs f.at_block_exit bytes;
}
append_in_mode block_alt f bytes = record f {
  at_block_alt = some (append_or_new f.at_block_alt bytes);
}

unfoldable pub append_to_tag : Flag → List ℕ → Result Flag
unfolding append_in_mode
append_to_tag f bytes = elim f.current_mode [
  | none ↦ panic
  | some m ↦ ok (append_in_mode m f bytes)
]

unfoldable pub get_tag : Flag → Result (Option Tag)
get_tag f = elim f.current_mode [
  | none ↦ panic
  | some m ↦ elim (slot m f) [ none ↦ ok none | some i ↦ ok i.tag ]
]
