-- ===== src/Modifier/Laws.antt =====
-- `FunctionModifier` at one operator of a body: what is put before it, after it or in its place leaves
-- the special modes there, every other operator's flag and the operators themselves as they are.
use wirm.Base.{
  ℕ, ◌≡◌, refl, ap, ◌∙◌, false, ◌||◌, none, some, List, [], ◌∷◌, length-set, sym, subst,
  get_elem?-lt, get_elem?-set_self, get_elem?-set_ne, set,
}
use mathlib.Core.Option.{some-injective}
use wirm.Base.Results.{Result, ok, ◌>>=◌}
use wirm.Reindex.{Operator}
use wirm.Instr.{
  Flag, Mode, before, after, alternate, semantic_after, block_entry, block_exit, block_alt,
  no_instrs, push_to, push_or_new, add_instr as flag_add_instr, add_in_mode,
  clear_instr as flag_clear_instr,
}
use wirm.Instr.Code.{
  Instructions, force_flags, at_flag, set_current_mode, add_instr, clear_instr, set_alternate,
}
use wirm.Modifier.{
  Modifier, set_instrument_mode_at, inject, inject_by, inject_here, inject_all, clear_instr_at,
  empty_alternate_at,
}
use wirm.Modifier.Effects.{
  Special, special, clear_special, IsPlain, IsSpecial, Grows, IsPrefix-refl, Grows-refl, On, Ready,
  Frame, Reaches, Readies, Frame-refl, Frame-trans,
}

-- Code as the modifier leaves it that writes the flag of operator `idx`.
abbrev wrote : Instructions → List Flag → ℕ → Flag → Instructions
wrote i fs idx f = record i { flags = some (set fs idx f) }

module _ (idx : ℕ) (b b' : Modifier) (g : Special) (h : On idx b g) (f : Flag)
    (written : b'.body.instructions ≡ wrote b.body.instructions h.flags idx f) where
  write-Frame : Grows h.flag f → Frame idx b b'
  write-Frame grown = record {
    same_ops = rw written refl;
    same_flags = λ j ne. rw (written, h.has_flags) (get_elem?-set_ne h.flags f ne);
    same_length = rw (written, h.has_flags) (length-set h.flags idx f);
    grown =
        rw (written, h.has_flags)
          (λ f0 e. (
            f,
            get_elem?-set_self h.flags idx f (get_elem?-lt h.flags idx h.at_flag),
            (let same : h.flag ≡ f0 = some-injective _ _ (sym h.at_flag ∙ e) in
                subst (λ x. Grows x f) same grown),
          ));
  }

  write-On : {g' : Special} → b'.instr_flag.current_mode ≡ none → special f ≡ g' → On idx b' g'
  write-On no_mode specials = record {
    flags = set h.flags idx f;
    flag = f;
    op = h.op;
    has_flags = rw written refl;
    at_flag = get_elem?-set_self h.flags idx f (get_elem?-lt h.flags idx h.at_flag);
    at_op = rw written h.at_op;
    no_mode = no_mode;
    specials = specials;
  }

special-clear : (m : Mode) (f : Flag) → special (flag_clear_instr f m) ≡ clear_special m (special f)
unfolding flag_clear_instr
special-clear before f = refl
special-clear after f = refl
special-clear alternate f = refl
special-clear semantic_after f = refl
special-clear block_entry f = refl
special-clear block_exit f = refl
special-clear block_alt f = refl

clear-Grows : (m : Mode) (f : Flag) → IsSpecial m → Grows f (flag_clear_instr f m)
unfolding flag_clear_instr
clear-Grows before f p = absurd p
clear-Grows after f p = absurd p
clear-Grows alternate f p = absurd p
clear-Grows semantic_after f p = Grows-refl f
clear-Grows block_entry f p = Grows-refl f
clear-Grows block_exit f p = Grows-refl f
clear-Grows block_alt f p = Grows-refl f

-- In a plain mode an operator is added to a list that is not special.
add_instr-plain :
    (m : Mode) (f : Flag) (op val : Operator)
    → IsPlain m
    → f.current_mode ≡ some m
    → (f' : Flag) × (flag_add_instr f op val ≡ ok (f', false))
      × (special f' ≡ special f)
      × (f'.current_mode ≡ some m)
      × Grows f f'
unfolding flag_add_instr add_in_mode
add_instr-plain before f op val p e = (
  record f { at_before = push_to f.at_before val },
  rw e refl,
  refl,
  e,
  ((val ∷ [], refl), IsPrefix-refl f.at_after.instrs),
)
add_instr-plain after f op val p e = (
  record f { at_after = push_to f.at_after val },
  rw e refl,
  refl,
  e,
  (IsPrefix-refl f.at_before.instrs, (val ∷ [], refl)),
)
add_instr-plain alternate f op val p e = (
  record f { at_alternate = some (push_or_new f.at_alternate val) },
  rw e refl,
  refl,
  e,
  Grows-refl f,
)
add_instr-plain semantic_after f op val p e = absurd p
add_instr-plain block_entry f op val p e = absurd p
add_instr-plain block_exit f op val p e = absurd p
add_instr-plain block_alt f op val p e = absurd p

module _ {idx : ℕ} {b : Modifier} {g : Special} (h : On idx b g) where
  -- Choosing a mode changes no list.
  pub set_mode-Readies : (m : Mode) → Readies idx m b (set_instrument_mode_at b m idx) g
  unfolding set_instrument_mode_at set_current_mode at_flag force_flags write-On
  set_mode-Readies m =
      let f = record h.flag { current_mode = some m } in
      let code = wrote b.body.instructions h.flags idx f in
      let b' = record b { instr_idx = some idx; body = record b.body { instructions = code } } in
      (
        b',
        rw (h.has_flags, h.at_flag) refl,
        write-Frame idx b b' g h f refl (Grows-refl h.flag),
        record {
          on = write-On idx b b' g h f refl h.no_mode h.specials;
          mode_set = refl;
          idx_set = refl;
        },
      )

  pub clear_instr_at-Reaches :
      (m : Mode) → IsSpecial m → Reaches idx b (clear_instr_at b idx m) (clear_special m g)
  unfolding clear_instr_at clear_instr at_flag force_flags
  clear_instr_at-Reaches m special_mode =
      let f = flag_clear_instr h.flag m in
      let code = wrote b.body.instructions h.flags idx f in
      let b' = record b { body = record b.body { instructions = code } } in
      (
        b',
        rw (h.has_flags, h.at_flag) refl,
        write-Frame idx b b' g h f refl (clear-Grows m h.flag special_mode),
        write-On idx b b' g h f refl h.no_mode
            (special-clear m h.flag ∙ ap (clear_special m) h.specials),
      )

  pub empty_alternate_at-Reaches : Reaches idx b (empty_alternate_at b idx) g
  unfolding empty_alternate_at set_alternate at_flag force_flags
  empty_alternate_at-Reaches =
      let f = record h.flag { at_alternate = some no_instrs } in
      let code = wrote b.body.instructions h.flags idx f in
      let b' = record b { body = record b.body { instructions = code } } in
      (
        b',
        rw (h.has_flags, h.at_flag) refl,
        write-Frame idx b b' g h f refl (Grows-refl h.flag),
        write-On idx b b' g h f refl h.no_mode h.specials,
      )

-- With no mode of the function's own, an operator goes to the one last chosen.
inject-here :
    (idx : ℕ) (b : Modifier) (val : Operator)
    → b.instr_flag.current_mode ≡ none
    → b.instr_idx ≡ some idx
    → inject b val ≡ inject_here (some idx) b val
unfolding inject
inject-here idx b val no_mode at =
    ap (λ mode. inject_by mode b val) no_mode ∙ ap (λ i. inject_here i b val) at

module _ {idx : ℕ} {m : Mode} (plain : IsPlain m) where
  pub inject-Readies :
      {b : Modifier} {g : Special}
      → Ready idx m b g
      → (val : Operator) → Readies idx m b (inject b val) g
  unfolding inject_here add_instr force_flags write-On
  inject-Readies {b} {g} r val =
      let h = r.on in
      let (f, added, same, mode, grown) = add_instr-plain m h.flag h.op val plain r.mode_set in
      let code = wrote b.body.instructions h.flags idx f in
      let b' = record b {
        body = record b.body { instructions = code };
        instr_flag = record b.instr_flag {
          has_special_instr = b.instr_flag.has_special_instr || false;
        };
      } in
      (
        b',
        inject-here idx b val h.no_mode r.idx_set
            ∙ rw (h.has_flags, h.at_flag, h.at_op, added) refl,
        write-Frame idx b b' g h f refl grown,
        record {
          on = write-On idx b b' g h f refl h.no_mode (same ∙ h.specials);
          mode_set = mode;
          idx_set = r.idx_set;
        },
      )

  pub inject_all-Readies :
      (vals : List Operator) {b : Modifier} {g : Special}
      → Ready idx m b g
      → Readies idx m b (inject_all b vals) g
  unfolding inject_all
  inject_all-Readies [] {b} r = (b, refl, Frame-refl idx b, r)
  inject_all-Readies (val ∷ vals) {b} r =
      let (b', e, framed, r') = inject-Readies r val in
      let (b'', e', framed', r'') = inject_all-Readies vals r' in
      (b'', rw (e, e') refl, Frame-trans idx b b' b'' framed framed', r'')

-- Sequences of changes at one operator.
module _ {idx : ℕ} {b : Modifier} {g : Special} where
  pub then_Reaches :
      {r : Result Modifier} {g' : Special} (next : Modifier → Result Modifier)
      → Reaches idx b r g
      → ((b' : Modifier) → On idx b' g → Reaches idx b' (next b') g')
      → Reaches idx b (r >>= next) g'
  then_Reaches next (b', e, framed, on) rest =
      let (b'', e', framed', on') = rest b' on in
      (b'', rw e e', Frame-trans idx b b' b'' framed framed', on')

  pub then_Readies :
      {r : Result Modifier} {g' : Special} {m m' : Mode} (next : Modifier → Result Modifier)
      → Readies idx m b r g
      → ((b' : Modifier) → Ready idx m b' g → Readies idx m' b' (next b') g')
      → Readies idx m' b (r >>= next) g'
  then_Readies next (b', e, framed, on) rest =
      let (b'', e', framed', on') = rest b' on in
      (b'', rw e e', Frame-trans idx b b' b'' framed framed', on')

  pub Reaches-Readies : {r : Result Modifier} {m : Mode} → Readies idx m b r g → Reaches idx b r g
  Reaches-Readies (b', e, framed, ready) = (b', e, framed, ready.on)

  pub same-Reaches : On idx b g → Reaches idx b (ok b) g
  same-Reaches on = (b, refl, Frame-refl idx b, on)
