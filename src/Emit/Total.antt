-- ===== src/Emit/Total.antt =====
-- `encode_function` succeeds on a body whose flags cover its operators and are resolved, and whose
-- spliced list of operators can be encoded.
use wirm.Base.{
  ◌↔◌, sym, subst, ℕ, suc, ◌+◌, ◌-◌, ◌≡◌, ◌≤◌, refl, Bool, not, Option, none, some, List, [], ◌∷◌,
  ◌++◌, arith, length, get_elem?_of_lt, leb, if◌then◌else◌, Bool-cases, inl, inr, ◌∙◌, ap, All,
  All-get_elem?,
}
use wirm.Base.Maps.{HashMap}
use wirm.Base.Results.{ok, ◌>>=◌, >>=-eq-ok}
use wirm.Reindex.{Operator}
use wirm.Instr.{Flag, has_instr, check_special_is_resolved, default_flag}
use wirm.Instr.Code.{Instructions}
use wirm.Emit.{encode, fix, update_ids_and_encode, encode_instrumented, encode_ops, encode_function}
use wirm.Emit.Laws.{
  flag_at, middle_of, splice, splice_plain, spliced, spliced_body, Emits, Emits-split, one-Emits,
  alternate-Emits, after-Emits, encode_function-Emits,
}

-- The flags, where there are any, cover the operators from position `idx` on and are resolved.
abbrev pub IsCovered : Option (List Flag) → ℕ → ℕ → Type 0
IsCovered none idx count = Unit
IsCovered (some fs) idx count =
    (idx + count ≤ length fs) × All (λ f. check_special_is_resolved f ≡ ok tt) fs

module _ {Code : Type 0} (reencode : Operator → Option Code) (fm gm mm : HashMap ℕ) where
  abbrev IsFixable : Operator → Type 0
  IsFixable op = (op' : Operator) × (fix reencode fm gm mm op ≡ ok op')

  instrumented_of_Emits :
      (at_end : Bool) (f : Flag) (op op' : Operator) (codes : List Code)
      → fix reencode fm gm mm op ≡ ok op'
      → check_special_is_resolved f ≡ ok tt
      → Emits reencode fm gm mm (splice at_end f op) codes
      → encode_instrumented reencode fm gm mm at_end f op' ≡ ok codes
  unfolding encode_instrumented
  instrumented_of_Emits at_end f op op' codes fixed checked h =
      let tail = if at_end then [] else f.at_after.instrs in
      let (b, ma, before, rest, e) =
        Emits-split reencode fm gm mm f.at_before.instrs
          (middle_of at_end f.at_alternate op ++ tail) codes h in
      let (m, a, middle, after, e') =
        Emits-split reencode fm gm mm (middle_of at_end f.at_alternate op) tail ma rest in
      let middle' =
        (alternate-Emits reencode fm gm mm at_end f.at_alternate op op' m fixed).1 middle in
      let after' = (after-Emits reencode fm gm mm at_end f.at_after a).1 after in
      rw (checked, before, middle', after') cc

  step_of_Emits :
      (at_end : Bool) (f : Flag) (op op' : Operator) (codes : List Code)
      → fix reencode fm gm mm op ≡ ok op'
      → check_special_is_resolved f ≡ ok tt
      → Emits reencode fm gm mm (splice at_end f op) codes
      → (if not (has_instr f)
          then (encode reencode fm gm mm op' >>= λ code. ok (code ∷ []))
          else encode_instrumented reencode fm gm mm at_end f op')
        ≡ ok codes
  step_of_Emits at_end f op op' codes fixed checked h = elim (Bool-cases (has_instr f)) [
    | inl t ↦ rw t (instrumented_of_Emits at_end f op op' codes fixed checked h)
    | inr n ↦
        let one : Emits reencode fm gm mm (op ∷ []) codes =
          subst (λ x. Emits reencode fm gm mm x codes) (splice_plain at_end f op n) h in
        rw n (one-Emits reencode fm gm mm op op' codes fixed one)
  ]

  ops_of_Emits :
      (last idx : ℕ) (flags : Option (List Flag)) (ops : List Operator) (codes : List Code)
      → All IsFixable ops
      → IsCovered flags idx (length ops)
      → Emits reencode fm gm mm (spliced last idx (flag_at flags) ops) codes
      → encode_ops reencode fm gm mm last idx flags ops ≡ ok codes
  unfolding encode_ops
  ops_of_Emits last idx flags [] codes fixable covered h = h
  ops_of_Emits last idx none (op ∷ ops) codes fixable covered h =
      let (op', fixed) = fixable.0 in
      let tail = spliced last (suc idx) (flag_at none) ops in
      let plain : splice (leb last idx) default_flag op ≡ op ∷ [] =
        splice_plain (leb last idx) default_flag op refl in
      let whole : Emits reencode fm gm mm ((op ∷ []) ++ tail) codes =
        subst (λ x. Emits reencode fm gm mm (x ++ tail) codes) plain h in
      let (c, cs, first, rest, e) = Emits-split reencode fm gm mm (op ∷ []) tail codes whole in
      let (k, coded, last_step) =
        >>=-eq-ok (encode reencode fm gm mm op') _
          (one-Emits reencode fm gm mm op op' c fixed first) in
      let ih = ops_of_Emits last (suc idx) none ops cs fixable.1 tt rest in
      let one : k ∷ [] ≡ c = cc in rw (fixed, coded, ih) (ap ok (ap (λ x. x ++ cs) one ∙ sym e))
  ops_of_Emits last idx (some flags) (op ∷ ops) codes fixable covered h =
      let (op', fixed) = fixable.0 in
      let (f, found) = get_elem?_of_lt flags idx (omega (arith, covered.0)) in
      let resolved =
        All-get_elem? (λ f. check_special_is_resolved f ≡ ok tt) flags idx f covered.1 found in
      let tail = spliced last (suc idx) (flag_at (some flags)) ops in
      let whole : Emits reencode fm gm mm (splice (leb last idx) f op ++ tail) codes =
        rw found at h in
      let (c, cs, first, rest, e) =
        Emits-split reencode fm gm mm (splice (leb last idx) f op) tail codes whole in
      let ih =
        ops_of_Emits last (suc idx) (some flags) ops cs fixable.1
          (omega (arith, covered.0), covered.1) rest in
      let here = step_of_Emits (leb last idx) f op op' c fixed resolved first in
      rw (fixed, found, here, ih) cc

  -- If every operator of the body can be renumbered, and the flags cover the body and are
  -- resolved, `encode_function` succeeds with some codes exactly where the spliced list of
  -- operators is encoded to these codes. In that list, before the end of the function, an
  -- operator whose alternate is `None` stands for itself, and one with an empty alternate is
  -- left out.
  pub encode_function_iff :
      (i : Instructions) (codes : List Code)
      → All IsFixable i.instructions
      → IsCovered i.flags 0 (length i.instructions)
      → (encode_function reencode fm gm mm i ≡ ok codes)
        ↔ (update_ids_and_encode reencode fm gm mm (spliced_body i) ≡ ok codes)
  unfolding encode_function
  encode_function_iff i codes fixable covered = (
    encode_function-Emits reencode fm gm mm i codes,
    ops_of_Emits (length i.instructions - 1) 0 i.flags i.instructions codes fixable covered,
  )
