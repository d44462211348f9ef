-- ===== src/Emit/Laws.antt =====
-- `encode_function` against its specification: a plain list of operators, each renumbered and
-- encoded in turn.
use wirm.Base.{
  ◌↔◌, sym, subst, ℕ, suc, ◌-◌, ◌≡◌, refl, Bool, true, false, not, ◌||◌, Option, none, some, List,
  [], ◌∷◌, ◌++◌, arith, length, get_elem?, leb, if◌then◌else◌, Bool-cases, inl, inr, ap,
}
use wirm.Base.Maps.{HashMap}
use wirm.Base.Results.{ok, or_panic, ◌>>=◌, >>=-eq-ok}
use wirm.Reindex.{Operator}
use wirm.Instr.{
  Flag, InjectedInstrs, is_none, is_empty, has_instr, check_special_is_resolved, default_flag,
}
use wirm.Instr.Code.{Instructions}
use wirm.Emit.{
  encode, fix, update_ids_and_encode, encode_alternate, encode_after, encode_instrumented,
  encode_ops, encode_function,
}

-- What stands in the place of an operator: before, the alternate or the operator, after. At the
-- end of the function the alternate and what comes after are dropped.
abbrev pub middle_of : Bool → Option InjectedInstrs → Operator → List Operator
middle_of at_end none op = op ∷ []
middle_of at_end (some alt) op = if at_end then op ∷ [] else alt.instrs

abbrev pub splice : Bool → Flag → Operator → List Operator
splice at_end f op =
    f.at_before.instrs
    ++ (middle_of at_end f.at_alternate op ++ (if at_end then [] else f.at_after.instrs))

-- The whole body; an operator with no flag stands for itself.
abbrev pub spliced : ℕ → ℕ → (ℕ → Option Flag) → List Operator → List Operator
spliced last idx flag_at [] = []
spliced last idx flag_at (op ∷ ops) =
    splice (leb last idx) (elim (flag_at idx) [ none ↦ default_flag | some f ↦ f ]) op
    ++ spliced last (suc idx) flag_at ops

abbrev pub flag_at : Option (List Flag) → ℕ → Option Flag
flag_at none idx = none
flag_at (some fs) idx = get_elem? fs idx

abbrev pub spliced_body : Instructions → List Operator
spliced_body i = spliced (length i.instructions - 1) 0 (flag_at i.flags) i.instructions

or_panic-ok : {A : Type 0} (o : Option A) (a : A) → or_panic o ≡ ok a → o ≡ some a
or_panic-ok none a h = cc
or_panic-ok (some x) a h = cc

or-false : (a b : Bool) → (a || b) ≡ false → (a ≡ false) × (b ≡ false)
or-false true b h = ground arith
or-false false b h = (refl, h)

not-is_empty : (xs : List Operator) → not (is_empty xs) ≡ false → xs ≡ []
not-is_empty [] h = refl
not-is_empty (x ∷ xs) h = ground arith

not-is_none : (o : Option InjectedInstrs) → not (is_none o) ≡ false → o ≡ none
not-is_none none h = refl
not-is_none (some x) h = ground arith

splice_bare :
    (at_end : Bool) (b a : List Operator) (alt : Option InjectedInstrs) (op : Operator)
    → b ≡ []
    → a ≡ []
    → alt ≡ none
    → b ++ (middle_of at_end alt op ++ (if at_end then [] else a)) ≡ op ∷ []
splice_bare true b a alt op eb ea en = rw (eb, en) refl
splice_bare false b a alt op eb ea en = rw (eb, ea, en) refl

-- With nothing around it, an operator stands for itself.
pub splice_plain :
    (at_end : Bool) (f : Flag) (op : Operator) → has_instr f ≡ false → splice at_end f op ≡ op ∷ []
unfolding has_instr
splice_plain at_end f op h =
    let (b, h1) = or-false _ _ h in
    let (a, h2) = or-false _ _ h1 in
    let (alt, h3) = or-false _ _ h2 in
    splice_bare at_end _ _ _ op (not-is_empty _ b) (not-is_empty _ a) (not-is_none _ alt)

module _ {Code : Type 0} (reencode : Operator → Option Code) (fm gm mm : HashMap ℕ) where
  abbrev pub Emits : List Operator → List Code → Type 0
  Emits ops codes = update_ids_and_encode reencode fm gm mm ops ≡ ok codes

  Emits-append :
      (xs ys : List Operator) (a b : List Code)
      → Emits xs a
      → Emits ys b
      → Emits (xs ++ ys) (a ++ b)
  unfolding update_ids_and_encode
  Emits-append [] ys a b h k = let e : [] ≡ a = cc in rw (← e) k
  Emits-append (x ∷ xs) ys a b h k =
      let (x', fixed, h') = >>=-eq-ok (fix reencode fm gm mm x) _ h in
      let (c, coded, h'') = >>=-eq-ok (encode reencode fm gm mm x') _ h' in
      let (cs, rest, last) = >>=-eq-ok (update_ids_and_encode reencode fm gm mm xs) _ h'' in
      let e : c ∷ cs ≡ a = cc in
      rw (fixed, coded, Emits-append xs ys cs b rest k) (ap (λ l. ok (l ++ b)) e)

  pub Emits-split :
      (xs ys : List Operator) (codes : List Code)
      → Emits (xs ++ ys) codes
      → (a : List Code) × (b : List Code) × Emits xs a × Emits ys b × (codes ≡ a ++ b)
  unfolding update_ids_and_encode
  Emits-split [] ys codes h = ([], codes, refl, h, refl)
  Emits-split (x ∷ xs) ys codes h =
      let (x', fixed, h') = >>=-eq-ok (fix reencode fm gm mm x) _ h in
      let (c, coded, h'') = >>=-eq-ok (encode reencode fm gm mm x') _ h' in
      let (cs, rest, last) = >>=-eq-ok (update_ids_and_encode reencode fm gm mm (xs ++ ys)) _ h'' in
      let (a, b, first, second, e) = Emits-split xs ys cs rest in
      (c ∷ a, b, rw (fixed, coded, first), second, cc)

  Emits-one :
      (op op' : Operator) (c : Code)
      → fix reencode fm gm mm op ≡ ok op'
      → encode reencode fm gm mm op' ≡ ok c
      → Emits (op ∷ []) (c ∷ [])
  unfolding update_ids_and_encode
  Emits-one op op' c fixed coded = rw (fixed, coded)

  pub one-Emits :
      (op op' : Operator) (codes : List Code)
      → fix reencode fm gm mm op ≡ ok op'
      → Emits (op ∷ []) codes
      → (encode reencode fm gm mm op' >>= λ code. ok (code ∷ [])) ≡ ok codes
  unfolding update_ids_and_encode
  one-Emits op op' codes fixed h = rw fixed at h

  one-Emits-back :
      (op op' : Operator) (codes : List Code)
      → fix reencode fm gm mm op ≡ ok op'
      → (encode reencode fm gm mm op' >>= λ code. ok (code ∷ [])) ≡ ok codes
      → Emits (op ∷ []) codes
  unfolding update_ids_and_encode
  one-Emits-back op op' codes fixed h = rw fixed h

  pub alternate-Emits :
      (at_end : Bool) (alt : Option InjectedInstrs) (op op' : Operator) (codes : List Code)
      → fix reencode fm gm mm op ≡ ok op'
      → (encode_alternate reencode fm gm mm at_end alt op' ≡ ok codes)
        ↔ Emits (middle_of at_end alt op) codes
  unfolding encode_alternate
  alternate-Emits at_end none op op' codes fixed =
      (λ h. rw fixed h, λ h. one-Emits op op' codes fixed h)
  alternate-Emits true (some alt) op op' codes fixed =
      (λ h. rw fixed h, λ h. one-Emits op op' codes fixed h)
  alternate-Emits false (some alt) op op' codes fixed = ((λ h. h), λ h. h)

  pub after-Emits :
      (at_end : Bool) (after : InjectedInstrs) (codes : List Code)
      → (encode_after reencode fm gm mm at_end after ≡ ok codes)
        ↔ Emits (if at_end then [] else after.instrs) codes
  unfolding encode_after update_ids_and_encode
  after-Emits true after codes = ((λ h. h), λ h. h)
  after-Emits false after codes = ((λ h. h), λ h. h)

  instrumented-Emits :
      (at_end : Bool) (f : Flag) (op op' : Operator) (codes : List Code)
      → fix reencode fm gm mm op ≡ ok op'
      → encode_instrumented reencode fm gm mm at_end f op' ≡ ok codes
      → Emits (splice at_end f op) codes
  unfolding encode_instrumented
  instrumented-Emits at_end f op op' codes fixed h =
      let (_, checked, h1) = >>=-eq-ok (check_special_is_resolved f) _ h in
      let (b, before, h2) =
        >>=-eq-ok (update_ids_and_encode reencode fm gm mm f.at_before.instrs) _ h1 in
      let (m, middle, h3) =
        >>=-eq-ok (encode_alternate reencode fm gm mm at_end f.at_alternate op') _ h2 in
      let (a, after, h4) = >>=-eq-ok (encode_after reencode fm gm mm at_end f.at_after) _ h3 in
      let e : b ++ (m ++ a) ≡ codes = cc in
      let tail = if at_end then [] else f.at_after.instrs in
      rw (← e) (
        Emits-append f.at_before.instrs (middle_of at_end f.at_alternate op ++ tail) b (m ++ a)
          before
          (Emits-append (middle_of at_end f.at_alternate op) tail m a
            ((alternate-Emits at_end f.at_alternate op op' m fixed).0 middle)
            ((after-Emits at_end f.at_after a).0 after)))

  -- An operator, its flag given or not.
  step-Emits :
      (at_end : Bool) (f : Flag) (op op' : Operator) (codes : List Code)
      → fix reencode fm gm mm op ≡ ok op'
      → (if not (has_instr f)
          then (encode reencode fm gm mm op' >>= λ code. ok (code ∷ []))
          else encode_instrumented reencode fm gm mm at_end f op')
        ≡ ok codes
      → Emits (splice at_end f op) codes
  step-Emits at_end f op op' codes fixed h = elim (Bool-cases (has_instr f)) [
    | inl t ↦ instrumented-Emits at_end f op op' codes fixed (rw t at h)
    | inr n ↦
        let one : Emits (op ∷ []) codes = one-Emits-back op op' codes fixed (rw n at h) in
        rw (splice_plain at_end f op n) one
  ]

  ops-Emits-none :
      (last idx : ℕ) (ops : List Operator) (codes : List Code)
      → encode_ops reencode fm gm mm last idx none ops ≡ ok codes
      → Emits (spliced last idx (flag_at none) ops) codes
  unfolding encode_ops
  ops-Emits-none last idx [] codes h = h
  ops-Emits-none last idx (op ∷ ops) codes h =
      let (op', fixed, h1) = >>=-eq-ok (fix reencode fm gm mm op) _ h in
      let (c, coded, h2) = >>=-eq-ok (encode reencode fm gm mm op') _ h1 in
      let (cs, rest, h3) = >>=-eq-ok (encode_ops reencode fm gm mm last (suc idx) none ops) _ h2 in
      let e : c ∷ cs ≡ codes = cc in
      let plain : splice (leb last idx) default_flag op ≡ op ∷ [] =
        splice_plain (leb last idx) default_flag op refl in
      let tail = spliced last (suc idx) (flag_at none) ops in
      let whole : Emits (op ∷ tail) (c ∷ cs) =
        Emits-append (op ∷ []) tail (c ∷ []) cs (Emits-one op op' c fixed coded)
          (ops-Emits-none last (suc idx) ops cs rest) in
      subst (λ x. Emits (x ++ tail) codes) (sym plain) (subst (λ k. Emits (op ∷ tail) k) e whole)

  ops-Emits-some :
      (last idx : ℕ) (flags : List Flag) (ops : List Operator) (codes : List Code)
      → encode_ops reencode fm gm mm last idx (some flags) ops ≡ ok codes
      → Emits (spliced last idx (flag_at (some flags)) ops) codes
  unfolding encode_ops
  ops-Emits-some last idx flags [] codes h = h
  ops-Emits-some last idx flags (op ∷ ops) codes h =
      let (op', fixed, h1) = >>=-eq-ok (fix reencode fm gm mm op) _ h in
      let (f, found, h2) = >>=-eq-ok (or_panic (get_elem? flags idx)) _ h1 in
      let (here, coded, h3) =
        >>=-eq-ok
          (if not (has_instr f)
            then (encode reencode fm gm mm op' >>= λ code. ok (code ∷ []))
            else encode_instrumented reencode fm gm mm (leb last idx) f op')
          _ h2 in
      let (cs, rest, h4) =
        >>=-eq-ok (encode_ops reencode fm gm mm last (suc idx) (some flags) ops) _ h3 in
      let e : here ++ cs ≡ codes = cc in
      rw (or_panic-ok _ f found, ← e)
        (Emits-append (splice (leb last idx) f op)
          (spliced last (suc idx) (flag_at (some flags)) ops) here cs
          (step-Emits (leb last idx) f op op' here fixed coded)
          (ops-Emits-some last (suc idx) flags ops cs rest))

  ops-Emits :
      (last idx : ℕ) (flags : Option (List Flag)) (ops : List Operator) (codes : List Code)
      → encode_ops reencode fm gm mm last idx flags ops ≡ ok codes
      → Emits (spliced last idx (flag_at flags) ops) codes
  ops-Emits last idx none ops codes h = ops-Emits-none last idx ops codes h
  ops-Emits last idx (some flags) ops codes h = ops-Emits-some last idx flags ops codes h

  -- If `encode_function` succeeds with some codes, the spliced list of operators is encoded to
  -- them.
  pub encode_function-Emits :
      (i : Instructions) (codes : List Code)
      → encode_function reencode fm gm mm i ≡ ok codes
      → update_ids_and_encode reencode fm gm mm (spliced_body i) ≡ ok codes
  unfolding encode_function
  encode_function-Emits i codes h =
      ops-Emits (length i.instructions - 1) 0 i.flags i.instructions codes h
