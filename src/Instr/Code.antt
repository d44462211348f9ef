-- ===== src/Instr/Code.antt =====
-- ir/types.rs, `Instructions`: the operators of a body, with the flags of their instrumentation,
-- which are made when the first instrumentation comes.
pub mod Laws
use wirm.Base.{
  ℕ, ◌-◌, Bool, Option, none, some, List, [], ◌∷◌, ◌++◌, length, get_elem?, set, replicate, map,
}
use wirm.Base.Results.{Result, ok, err, panic, or_panic, instrumentation_error, text, ◌>>=◌}
use wirm.Reindex.{Operator}
use wirm.Instr.{
  Flag, Mode, InjectedInstrs, default_flag, add_instr as flag_add_instr,
  instr_len as flag_instr_len, finish_instr as flag_finish_instr, clear_instr as flag_clear_instr,
  append_to_tag as flag_append_to_tag,
}

pub record Instructions : Type 0 where
  pub instructions : List Operator
  pub offsets : Option (List ℕ)
  pub flags : Option (List Flag)

-- A flag for each operator: those there are, or the default ones that `force_flags` makes.
abbrev pub flags_for : List Operator → Option (List Flag) → List Flag
flags_for ops none = replicate (length ops) default_flag
flags_for ops (some fs) = fs

abbrev pub flags_of : Instructions → List Flag
flags_of i = flags_for i.instructions i.flags

unfoldable pub force_flags : Instructions → Instructions
force_flags i = record i { flags = some (flags_of i) }

-- `new`, from pairs of an operator and its offset. `usize` subtraction; no offset lies before
-- `locals_start`.
unfoldable pub new : List (Operator × ℕ) → ℕ → Bool → Instructions
new instructions locals_start save_offsets = record {
  instructions = map (λ p. p.0) instructions;
  offsets = elim save_offsets [
    | Bool.true ↦ some (map (λ p. p.1 - locals_start) instructions)
    | Bool.false ↦ none
  ];
  flags = none;
}

abbrev pub push_flag : Option (List Flag) → Option (List Flag)
push_flag none = none
push_flag (some fs) = some (fs ++ default_flag ∷ [])

unfoldable pub push : Instructions → Operator → Instructions
push i op = record i { instructions = i.instructions ++ op ∷ []; flags = push_flag i.flags }

-- `self.force_flags(); self.flags.as_mut().unwrap()[index]`, changed in place; an index out of
-- bounds panics.
unfoldable pub at_flag : Instructions → ℕ → (Flag → Result Flag) → Result Instructions
unfolding force_flags
at_flag i index change = do
  flag ← or_panic (get_elem? (flags_of (force_flags i)) index)
  flag' ← change flag
  ok (record i { flags = some (set (flags_of (force_flags i)) index flag') })

unfoldable pub add_instr : Instructions → ℕ → Operator → Result (Instructions × Bool)
unfolding force_flags
add_instr i index op = do
  flag ← or_panic (get_elem? (flags_of (force_flags i)) index)
  at_op ← or_panic (get_elem? i.instructions index)
  (flag', is_special) ← flag_add_instr flag at_op op
  ok (record i { flags = some (set (flags_of (force_flags i)) index flag') }, is_special)

unfoldable pub current_mode : Instructions → ℕ → Result (Option Mode)
current_mode i index = elim i.flags [
  | none ↦ ok none
  | some fs ↦ do flag ← or_panic (get_elem? fs index); ok flag.current_mode
]

unfoldable pub set_current_mode : Instructions → ℕ → Mode → Result Instructions
unfolding at_flag
set_current_mode i index mode = at_flag i index (λ f. ok (record f { current_mode = some mode }))

unfoldable pub finish_instr : Instructions → ℕ → Result Instructions
unfolding at_flag flag_finish_instr
finish_instr i index = at_flag i index (λ f. ok (flag_finish_instr f))

unfoldable pub instr_len : Instructions → ℕ → Result ℕ
unfolding flag_instr_len
instr_len i index = elim i.flags [
  | none ↦ ok 0
  | some fs ↦ do flag ← or_panic (get_elem? fs index); flag_instr_len flag
]

unfoldable pub set_alternate : Instructions → ℕ → InjectedInstrs → Result Instructions
unfolding at_flag
set_alternate i index alternate =
    at_flag i index (λ f. ok (record f { at_alternate = some alternate }))

unfoldable pub set_block_alt : Instructions → ℕ → InjectedInstrs → Result Instructions
unfolding at_flag
set_block_alt i index block_alt =
    at_flag i index (λ f. ok (record f { at_block_alt = some block_alt }))

unfoldable pub append_to_tag : Instructions → ℕ → List ℕ → Result Instructions
unfolding at_flag flag_append_to_tag
append_to_tag i index bytes = at_flag i index (λ f. flag_append_to_tag f bytes)

-- `if let Some(flags)`
abbrev pub if_flags {ℓ} : {A : Type ℓ} → Option (List Flag) → A → A → A
if_flags none x y = y
if_flags (some fs) x y = x

-- Without flags there is nothing to clear.
unfoldable pub clear_instr : Instructions → ℕ → Mode → Result Instructions
unfolding at_flag flag_clear_instr
clear_instr i index mode =
    if_flags i.flags (at_flag i index (λ f. ok (flag_clear_instr f mode))) (ok i)

-- The operators to be changed in place, refused once there are flags.
unfoldable pub get_ops_mut : Instructions → Result (List Operator)
get_ops_mut i = elim i.flags [
  | none ↦ ok i.instructions
  | some _ ↦ err (
      instrumentation_error (
        text
          "Cannot get mutable instructions if flags are set. Mutating instructions will invalidate instrumentation flags."))
]

unfoldable pub lookup_pc_offset_for : Instructions → ℕ → Option ℕ
lookup_pc_offset_for i instr_idx = elim i.offsets [ none ↦ none | some os ↦ get_elem? os instr_idx ]
