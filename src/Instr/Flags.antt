-- ===== src/Instr/Flags.antt =====
-- What the operations on a flag do to the list of each mode.
use wirm.Base.{
  ℕ, ◌+◌, ◌≡◌, refl, ◌≢◌, ◌↔◌, Bool, true, false, ◌||◌, Option, none, some, List, [], ◌∷◌, ◌++◌,
  arith, length, length-append, get_elem?-append_self, Bool-cases, Option-cases, inl, inr, ap,
  subst, ◌∙◌,
}
use wirm.Base.Results.{Result, ok, panic}
use wirm.Reindex.{Operator}
use wirm.Instr.{
  Mode, before, after, alternate, semantic_after, block_entry, block_exit, block_alt, Flag,
  InjectedInstrs, slot, add_in_mode, add_instr, instr_len, get_instr, clear_instr,
  check_special_is_resolved, is_block_style_op, is_branching_op, len_of, pull, push_to, push_or_new,
  Tag,
}

-- The operators of a mode, none where the list is absent.
abbrev pub ops_of : Option InjectedInstrs → List Operator
ops_of none = []
ops_of (some i) = i.instrs

abbrev pub instrs_of : Mode → Flag → List Operator
instrs_of m f = ops_of (slot m f)

abbrev pub tag_of : Mode → Flag → Option Tag
tag_of m f = elim (slot m f) [ none ↦ none | some i ↦ i.tag ]

abbrev pub is_special : Mode → Bool
is_special before = false
is_special after = false
is_special alternate = false
is_special _ = true

-- The operators to which a mode may be applied.
abbrev pub applies : Mode → Operator → Bool
applies before op = true
applies after op = true
applies alternate op = true
applies semantic_after op = is_block_style_op op || is_branching_op op
applies _ op = is_block_style_op op

-- The flag with one more operator in the list of a mode.
abbrev pushed : Mode → Flag → Operator → Flag
pushed before f val = record f { at_before = push_to f.at_before val }
pushed after f val = record f { at_after = push_to f.at_after val }
pushed alternate f val = record f { at_alternate = some (push_or_new f.at_alternate val) }
pushed semantic_after f val = record f { at_semantic_after = push_to f.at_semantic_after val }
pushed block_entry f val = record f { at_block_entry = push_to f.at_block_entry val }
pushed block_exit f val = record f { at_block_exit = push_to f.at_block_exit val }
pushed block_alt f val = record f { at_block_alt = some (push_or_new f.at_block_alt val) }

-- What one `add_instr` does: the list of the mode grows by the operator at its end, and the lists
-- of the other modes, all tags and the mode stay.
pub record Added (m : Mode) (f f' : Flag) (val : Operator) : Type 0 where
  pub mode_kept : f'.current_mode ≡ f.current_mode
  pub appended : instrs_of m f' ≡ instrs_of m f ++ val ∷ []
  pub others : (k : Mode) → k ≢ m → instrs_of k f' ≡ instrs_of k f
  pub tags : (k : Mode) → tag_of k f' ≡ tag_of k f

pushed_mode :
    (m : Mode) (f : Flag) (val : Operator) → (pushed m f val).current_mode ≡ f.current_mode
pushed_mode before f val = refl
pushed_mode _ f val = refl

pushed_instrs :
    (m : Mode) (f : Flag) (val : Operator)
    → instrs_of m (pushed m f val) ≡ instrs_of m f ++ val ∷ []
pushed_instrs before f val = refl
pushed_instrs _ f val = ground arith

pushed_others :
    (m k : Mode) (f : Flag) (val : Operator) → k ≢ m → instrs_of k (pushed m f val) ≡ instrs_of k f
pushed_others before before f val h = absurd (h refl)
pushed_others after after f val h = absurd (h refl)
pushed_others alternate alternate f val h = absurd (h refl)
pushed_others semantic_after semantic_after f val h = absurd (h refl)
pushed_others block_entry block_entry f val h = absurd (h refl)
pushed_others block_exit block_exit f val h = absurd (h refl)
pushed_others block_alt block_alt f val h = absurd (h refl)
pushed_others _ _ f val h = refl

pushed_tags : (m k : Mode) (f : Flag) (val : Operator) → tag_of k (pushed m f val) ≡ tag_of k f
pushed_tags alternate alternate f val = ground arith
pushed_tags block_alt block_alt f val = ground arith
pushed_tags before before f val = refl
pushed_tags after after f val = refl
pushed_tags semantic_after semantic_after f val = refl
pushed_tags block_entry block_entry f val = refl
pushed_tags block_exit block_exit f val = refl
pushed_tags _ _ f val = refl

add_in_mode-pushed :
    (m : Mode) (f : Flag) (op val : Operator)
    → applies m op ≡ true
    → add_in_mode m f op val ≡ ok (pushed m f val, is_special m)
unfolding add_in_mode
add_in_mode-pushed before f op val a = refl
add_in_mode-pushed _ f op val a = ground arith

add_instr-set :
    (f : Flag) (m : Mode) (op val : Operator)
    → f.current_mode ≡ some m
    → add_instr f op val ≡ add_in_mode m f op val
unfolding add_instr
add_instr-set f m op val h =
    ap
      (λ (o : Option Mode). elim o as (λ _. Result (Flag × Bool)) [
        | none ↦ panic
        | some k ↦ add_in_mode k f op val
      ])
      h

-- In a mode that is set and applies to the operator, `add_instr` succeeds, tells whether the
-- mode is special, and adds the operator to the list of that mode alone.
pub add_instr-Added :
    (f : Flag) (m : Mode) (op val : Operator)
    → f.current_mode ≡ some m
    → applies m op ≡ true
    → (f' : Flag) × (add_instr f op val ≡ ok (f', is_special m)) × Added m f f' val
add_instr-Added f m op val h a = (
  pushed m f val,
  add_instr-set f m op val h ∙ add_in_mode-pushed m f op val a,
  record {
    mode_kept = pushed_mode m f val;
    appended = pushed_instrs m f val;
    others = λ k. pushed_others m k f val;
    tags = λ k. pushed_tags m k f val;
  },
)

add_in_mode-panic :
    (m : Mode) (f : Flag) (op val : Operator)
    → applies m op ≡ false
    → add_in_mode m f op val ≡ panic
unfolding add_in_mode
add_in_mode-panic before f op val a = cc
add_in_mode-panic _ f op val a = ground arith

-- With no mode set, or in a mode that does not apply to the operator, `add_instr` panics.
add_instr-panic :
    (f : Flag) (op val : Operator)
    → ((m : Mode) → f.current_mode ≡ some m → applies m op ≡ false)
    → add_instr f op val ≡ panic
unfolding add_instr
add_instr-panic f op val h = elim (Option-cases f.current_mode) [
  | inl unset ↦ rw (unset, add_instr)
  | inr (m, is) ↦ add_instr-set f m op val is ∙ add_in_mode-panic m f op val (h m is)
]

pull-last :
    (m : Mode) (o : Option InjectedInstrs) (xs : List Operator) (val : Operator)
    → ops_of o ≡ xs ++ val ∷ []
    → (pull m o (length xs) ≡ ok val) × (len_of o ≡ length xs + 1)
pull-last m none xs val e = absurd (omega (arith, ap length e, length-append xs (val ∷ [])))
pull-last m (some i) xs val e =
    (rw e (rw (get_elem?-append_self xs val [])), rw e (length-append xs (val ∷ [])))

get_instr-last :
    (f : Flag) (m : Mode) (xs : List Operator) (val : Operator)
    → f.current_mode ≡ some m
    → instrs_of m f ≡ xs ++ val ∷ []
    → (get_instr f (length xs) ≡ ok val) × (instr_len f ≡ ok (length xs + 1))
unfolding get_instr instr_len
get_instr-last f m xs val h e =
    let last = pull-last m (slot m f) xs val e in
    (
      ap
            (λ (o : Option Mode). elim o as (λ _. Result Operator) [
              | none ↦ get_instr (record f { current_mode = none }) (length xs)
              | some k ↦ pull k (slot k f) (length xs)
            ])
            h
          ∙ last.0,
      ap
            (λ (o : Option Mode). elim o as (λ _. Result ℕ) [
              | none ↦ panic
              | some k ↦ ok (len_of (slot k f))
            ])
            h
          ∙ ap ok last.1,
    )

-- If a mode is set and `add_instr` succeeds, the operator just added is the one that `get_instr`
-- reads at the mode's length from before, and `instr_len` is one more than that length.
pub get_instr-add_instr :
    (f f' : Flag) (m : Mode) (op val : Operator) (s : Bool)
    → f.current_mode ≡ some m
    → add_instr f op val ≡ ok (f', s)
    → (get_instr f' (length (instrs_of m f)) ≡ ok val)
      × (instr_len f' ≡ ok (length (instrs_of m f) + 1))
get_instr-add_instr f f' m op val s h e = elim (Bool-cases (applies m op)) [
  | inr no_use ↦ absurd (cc (add_instr-set f m op val h ∙ add_in_mode-panic m f op val no_use))
  | inl fits ↦
      let (f'', done, added) = add_instr-Added f m op val h fits in
      let same : f'' ≡ f' = cc in
      subst
        (λ g.
          (get_instr g (length (instrs_of m f)) ≡ ok val)
          × (instr_len g ≡ ok (length (instrs_of m f) + 1)))
        same (get_instr-last f'' m (instrs_of m f) val (added.mode_kept ∙ h) added.appended)
]

cleared_others : (m k : Mode) (f : Flag) → k ≢ m → slot k (clear_instr f m) ≡ slot k f
unfolding clear_instr
cleared_others before before f h = absurd (h refl)
cleared_others after after f h = absurd (h refl)
cleared_others alternate alternate f h = absurd (h refl)
cleared_others semantic_after semantic_after f h = absurd (h refl)
cleared_others block_entry block_entry f h = absurd (h refl)
cleared_others block_exit block_exit f h = absurd (h refl)
cleared_others block_alt block_alt f h = absurd (h refl)
cleared_others _ _ f h = refl

cleared_self : (m : Mode) (f : Flag) → instrs_of m (clear_instr f m) ≡ []
unfolding clear_instr
cleared_self before f = refl
cleared_self _ f = refl

-- `clear_instr` empties the list of its mode and leaves the slot of every other mode.
clear_instr-slots :
    (f : Flag) (m : Mode)
    → (instrs_of m (clear_instr f m) ≡ [])
      × ((k : Mode) → k ≢ m → slot k (clear_instr f m) ≡ slot k f)
clear_instr-slots f m = (cleared_self m f, λ k. cleared_others m k f)

-- The check before encoding passes exactly if the lists of the special modes are empty, and the
-- block alternate is `None`; one that is an empty list, which stands for the removal of the
-- block, does not pass.
pub check_special_is_resolved_iff :
    (f : Flag)
    → (check_special_is_resolved f ≡ ok tt) ↔ (
        (instrs_of semantic_after f ≡ [])
        × (instrs_of block_entry f ≡ [])
        × (instrs_of block_exit f ≡ [])
        × (f.at_block_alt ≡ none))
unfolding check_special_is_resolved
check_special_is_resolved_iff f = ((λ h. ground arith), (λ h. ground arith))
