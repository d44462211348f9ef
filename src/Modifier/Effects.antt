-- ===== src/Modifier/Effects.antt =====
-- What a change by `FunctionModifier` (ir/function.rs) at one operator of a body may do to the flags: it
-- leaves those of the other operators, and what is injected before and after an operator only grows.
use wirm.Base.{
  ℕ, ◌≡◌, ◌≢◌, refl, ap, ◌∙◌, Option, none, some, List, [], length, get_elem?, ◌++◌, sym,
}
use mathlib.Core.List.{append-nil, append_assoc}
use wirm.Base.Results.{Result, ok}
use wirm.Reindex.{Operator}
use wirm.Instr.{
  Flag, Mode, before, after, alternate, semantic_after, block_entry, block_exit, block_alt,
  InjectedInstrs,
}
use wirm.Instr.Code.{flags_of}
use wirm.Modifier.{Modifier}

-- The special modes of a flag.
pub record Special : Type 0 where
  pub sem : List Operator
  pub ent : List Operator
  pub ext : List Operator
  pub alt : Option InjectedInstrs

abbrev pub special : Flag → Special
special f = record {
  sem = f.at_semantic_after.instrs;
  ent = f.at_block_entry.instrs;
  ext = f.at_block_exit.instrs;
  alt = f.at_block_alt;
}

abbrev pub clear_special : Mode → Special → Special
clear_special semantic_after g = record g { sem = [] }
clear_special block_entry g = record g { ent = [] }
clear_special block_exit g = record g { ext = [] }
clear_special block_alt g = record g { alt = none }
clear_special _ g = g

-- The modes that are not special.
abbrev pub IsPlain : Mode → Type 0
IsPlain before = Unit
IsPlain after = Unit
IsPlain alternate = Unit
IsPlain _ = ⊥

abbrev pub IsSpecial : Mode → Type 0
IsSpecial semantic_after = Unit
IsSpecial block_entry = Unit
IsSpecial block_exit = Unit
IsSpecial block_alt = Unit
IsSpecial _ = ⊥

abbrev pub IsPrefix : List Operator → List Operator → Type 0
IsPrefix xs ys = (zs : List Operator) × (ys ≡ xs ++ zs)

-- What is injected before and after an operator follows what was there.
abbrev pub Grows : Flag → Flag → Type 0
Grows f f' =
    IsPrefix f.at_before.instrs f'.at_before.instrs × IsPrefix f.at_after.instrs f'.at_after.instrs

pub IsPrefix-refl : (xs : List Operator) → IsPrefix xs xs
IsPrefix-refl xs = ([], sym (append-nil xs))

IsPrefix-trans : (xs ys zs : List Operator) → IsPrefix xs ys → IsPrefix ys zs → IsPrefix xs zs
IsPrefix-trans xs ys zs (us, e) (vs, e') =
    (us ++ vs, e' ∙ ap (λ x. x ++ vs) e ∙ append_assoc xs us vs)

pub Grows-refl : (f : Flag) → Grows f f
Grows-refl f = (IsPrefix-refl f.at_before.instrs, IsPrefix-refl f.at_after.instrs)

Grows-trans : (f g h : Flag) → Grows f g → Grows g h → Grows f h
Grows-trans f g h p q = (
  IsPrefix-trans f.at_before.instrs g.at_before.instrs h.at_before.instrs p.0 q.0,
  IsPrefix-trans f.at_after.instrs g.at_after.instrs h.at_after.instrs p.1 q.1,
)

-- The flag at `j` in `flags` has grown in `flags'`.
abbrev pub GrowsAt : ℕ → List Flag → List Flag → Type 0
GrowsAt j flags flags' =
    (f : Flag)
    → get_elem? flags j ≡ some f
    → (f' : Flag) × (get_elem? flags' j ≡ some f') × Grows f f'

GrowsAt-refl : (j : ℕ) (flags : List Flag) → GrowsAt j flags flags
GrowsAt-refl j flags f e = (f, e, Grows-refl f)

pub GrowsAt-trans :
    (j : ℕ) (xs ys zs : List Flag) → GrowsAt j xs ys → GrowsAt j ys zs → GrowsAt j xs zs
GrowsAt-trans j xs ys zs p q f e =
    let (g, e', grown) = p f e in
    let (h, e'', grown') = q g e' in (h, e'', Grows-trans f g h grown grown')

-- A modifier that works at operator `idx`, whose flag has the special modes `g`.
pub record On (idx : ℕ) (b : Modifier) (g : Special) : Type 0 where
  pub flags : List Flag
  pub flag : Flag
  pub op : Operator
  pub has_flags : b.body.instructions.flags ≡ some flags
  pub at_flag : get_elem? flags idx ≡ some flag
  pub at_op : get_elem? b.body.instructions.instructions idx ≡ some op
  pub no_mode : b.instr_flag.current_mode ≡ none
  pub specials : special flag ≡ g

-- The same, ready to inject in mode `m`.
pub record Ready (idx : ℕ) (m : Mode) (b : Modifier) (g : Special) : Type 0 where
  pub on : On idx b g
  pub mode_set : on.flag.current_mode ≡ some m
  pub idx_set : b.instr_idx ≡ some idx

-- What a change at operator `idx` leaves alone.
pub record Frame (idx : ℕ) (b b' : Modifier) : Type 0 where
  pub same_ops : b'.body.instructions.instructions ≡ b.body.instructions.instructions
  pub same_flags :
      (j : ℕ)
      → idx ≢ j
      → get_elem? (flags_of b'.body.instructions) j ≡ get_elem? (flags_of b.body.instructions) j
  pub same_length : length (flags_of b'.body.instructions) ≡ length (flags_of b.body.instructions)
  pub grown : GrowsAt idx (flags_of b.body.instructions) (flags_of b'.body.instructions)

abbrev pub Reaches : ℕ → Modifier → Result Modifier → Special → Type 0
Reaches idx b r g = (b' : Modifier) × (r ≡ ok b') × Frame idx b b' × On idx b' g

abbrev pub Readies : ℕ → Mode → Modifier → Result Modifier → Special → Type 0
Readies idx m b r g = (b' : Modifier) × (r ≡ ok b') × Frame idx b b' × Ready idx m b' g

pub Frame-refl : (idx : ℕ) (b : Modifier) → Frame idx b b
Frame-refl idx b = record {
  same_ops = refl;
  same_flags = λ j h. refl;
  same_length = refl;
  grown = GrowsAt-refl idx (flags_of b.body.instructions);
}

pub Frame-trans : (idx : ℕ) (a b c : Modifier) → Frame idx a b → Frame idx b c → Frame idx a c
Frame-trans idx a b c p q = record {
  same_ops = q.same_ops ∙ p.same_ops;
  same_flags = λ j h. q.same_flags j h ∙ p.same_flags j h;
  same_length = q.same_length ∙ p.same_length;
  grown = GrowsAt-trans idx _ _ _ p.grown q.grown;
}
