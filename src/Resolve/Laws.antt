-- ===== src/Resolve/Laws.antt =====
-- The helpers of `resolve_special_instrumentation` (ir/module/mod.rs) at one operator: none of them
-- panics there, and none changes a special mode that it does not clear.
use wirm.Base.{
  ℕ, ◌≡◌, refl, Bool, true, false, none, List, [], ◌∷◌, if◌then◌else◌, Bool-cases, inl, inr, All,
}
use wirm.Base.Results.{ok, ◌>>=◌}
use wirm.Reindex.{Operator, end_op, if_op, i32_const, local_get, local_set}
use wirm.Instr.{
  Mode, before, after, alternate, semantic_after, block_entry, block_exit, block_alt, is_empty,
  is_block_style_op,
}
use wirm.Body.{i32}
use wirm.Modifier.{Modifier, inject_all, empty_alternate_at, modifier_add_local}
use wirm.Modifier.Effects.{
  Special, On, Ready, Frame, Frame-refl, Frame-trans, Reaches, Readies, IsPlain,
}
use wirm.Modifier.Laws.{
  set_mode-Readies, clear_instr_at-Reaches, empty_alternate_at-Reaches, inject-Readies,
  inject_all-Readies, then_Reaches, then_Readies, Reaches-Readies, same-Reaches,
}
use wirm.Resolve.{
  ModeMap, InstrBodyFlagged, plain, numbered, inject_in, resolve_block_entry,
  clear_special_instr_at, plan_resolution_block_alt, is_else, create_bool_flag, place_bool_flag,
  may_fall_through, resolve_mode_at, else_unless_first, resolve_flagged, inject_ends, inject_bodies,
  resolve_bodies, resolve_all,
}

-- The modes that are planned for an `else` or an `end`.
abbrev pub IsPlanned : Mode → Type 0
IsPlanned before = Unit
IsPlanned after = Unit
IsPlanned _ = ⊥

abbrev pub ModeKeys : ModeMap → Type 0
ModeKeys m = All (λ e. IsPlanned e.0) m

-- No special mode is left.
abbrev pub no_special : Special
no_special = record { sem = []; ent = []; ext = []; alt = none }

IsPlanned-IsPlain : (m : Mode) → IsPlanned m → IsPlain m
IsPlanned-IsPlain before p = tt
IsPlanned-IsPlain after p = tt
IsPlanned-IsPlain alternate p = tt
IsPlanned-IsPlain semantic_after p = absurd p
IsPlanned-IsPlain block_entry p = absurd p
IsPlanned-IsPlain block_exit p = absurd p
IsPlanned-IsPlain block_alt p = absurd p

module _ {idx : ℕ} where
  -- Operators injected in a plain mode.
  pub inject_in-Reaches :
      {b : Modifier} {g : Special}
      → On idx b g
      → (m : Mode) → IsPlain m
      → (vals : List Operator) → Reaches idx b (inject_in b m idx vals) g
  unfolding inject_in
  inject_in-Reaches on m p vals = Reaches-Readies (
      then_Readies (λ b'. inject_all b' vals) (set_mode-Readies on m)
        (λ b' r. inject_all-Readies p vals r))

  pub clear_special-Reaches :
      {b : Modifier} {g : Special}
      → On idx b g
      → Reaches idx b (clear_special_instr_at b idx) no_special
  unfolding clear_special_instr_at
  clear_special-Reaches {b} on =
      let (b1, e1, f1, on1) = clear_instr_at-Reaches on block_alt tt in
      let (b2, e2, f2, on2) = clear_instr_at-Reaches on1 block_entry tt in
      let (b3, e3, f3, on3) = clear_instr_at-Reaches on2 block_exit tt in
      let (b4, e4, f4, on4) = clear_instr_at-Reaches on3 semantic_after tt in
      (
        b4,
        rw (e1, e2, e3) e4,
        Frame-trans idx b b1 b4 f1 (Frame-trans idx b1 b2 b4 f2 (Frame-trans idx b2 b3 b4 f3 f4)),
        on4,
      )

  pub block_entry-Reaches :
      {b : Modifier} {g : Special}
      → On idx b g
      → (body : List Operator) (op : Operator) → Reaches idx b (resolve_block_entry b body op idx) g
  unfolding resolve_block_entry
  block_entry-Reaches on body op = elim (Bool-cases (is_block_style_op op)) [
    | inl t ↦ rw t (inject_in-Reaches on after tt body)
    | inr u ↦ rw u (same-Reaches on)
  ]

  resolve_mode_at-Readies :
      {b : Modifier} {g : Special}
      → On idx b g
      → (m : Mode) → IsPlanned m
      → Readies idx m b (resolve_mode_at b m idx) g
  unfolding resolve_mode_at
  resolve_mode_at-Readies on before p = set_mode-Readies on before
  resolve_mode_at-Readies on after p = set_mode-Readies on after
  resolve_mode_at-Readies on alternate p = absurd p
  resolve_mode_at-Readies on semantic_after p = absurd p
  resolve_mode_at-Readies on block_entry p = absurd p
  resolve_mode_at-Readies on block_exit p = absurd p
  resolve_mode_at-Readies on block_alt p = absurd p

  module _ (m : Mode) (p : IsPlanned m) where
    -- One body with a flag, and then the others.
    flagged_one :
        (f : InstrBodyFlagged) (rest : List InstrBodyFlagged) (is_first : Bool) {b : Modifier}
        {g : Special}
        → On idx b g
        → ((b' : Modifier)
            → Ready idx m b' g
            → Readies idx m b' (resolve_flagged b' m idx false rest) g)
        → Readies idx m b (resolve_flagged b m idx is_first (f ∷ rest)) g
    unfolding resolve_flagged
    flagged_one f rest is_first on others =
        let q = IsPlanned-IsPlain m p in
        then_Readies _ (resolve_mode_at-Readies on m p) λ b1 r1.
          then_Readies _ (inject_all-Readies q (else_unless_first is_first) r1) λ b2 r2.
            then_Readies _
              (inject_all-Readies q (numbered local_get f.bool_flag ∷ plain if_op ∷ []) r2)
              λ b3 r3. then_Readies _ (inject_all-Readies q f.instrs r3) others

    flagged-Readies :
        (fs : List InstrBodyFlagged) (is_first : Bool) {b : Modifier} {g : Special}
        → Ready idx m b g
        → Readies idx m b (resolve_flagged b m idx is_first fs) g
    unfolding resolve_flagged
    flagged-Readies [] is_first {b} r = (b, refl, Frame-refl idx b, r)
    flagged-Readies (f ∷ rest) is_first r =
        flagged_one f rest is_first r.on (λ b' r'. flagged-Readies rest false r')

    ends-Readies :
        (fs : List InstrBodyFlagged) {b : Modifier} {g : Special}
        → Ready idx m b g
        → Readies idx m b (inject_ends b fs) g
    unfolding inject_ends
    ends-Readies [] {b} r = (b, refl, Frame-refl idx b, r)
    ends-Readies (f ∷ rest) r =
        then_Readies _ (inject-Readies (IsPlanned-IsPlain m p) r (plain end_op))
          λ b' r'. ends-Readies rest r'

    bodies-Readies :
        (bodies : List (List Operator)) {b : Modifier} {g : Special}
        → Ready idx m b g
        → Readies idx m b (inject_bodies b bodies) g
    unfolding inject_bodies
    bodies-Readies [] {b} r = (b, refl, Frame-refl idx b, r)
    bodies-Readies (body ∷ rest) r =
        then_Readies _ (inject_all-Readies (IsPlanned-IsPlain m p) body r)
          λ b' r'. bodies-Readies rest r'

    -- The end of `resolve_bodies`.
    last_bodies-Reaches :
        (bodies : List (List Operator)) {b : Modifier} {g : Special}
        → On idx b g
        → Reaches idx b (resolve_mode_at b m idx >>= λ b'. inject_bodies b' bodies) g
    last_bodies-Reaches bodies on =
        Reaches-Readies
          (then_Readies _ (resolve_mode_at-Readies on m p) λ b' r'. bodies-Readies bodies r')

    resolve_bodies-Reaches :
        (flagged : List InstrBodyFlagged) (bodies : List (List Operator)) {b : Modifier}
        {g : Special}
        → On idx b g
        → Reaches idx b
            (resolve_bodies b m (record { flagged = flagged; not_flagged = bodies }) idx)
            g
    unfolding resolve_bodies
    resolve_bodies-Reaches [] bodies on =
        unfold resolve_flagged inject_ends in last_bodies-Reaches bodies on
    resolve_bodies-Reaches (f ∷ rest) bodies on = Reaches-Readies (
        then_Readies _ (flagged_one f rest true on (λ b' r'. flagged-Readies rest false r'))
          λ b1 r1. then_Readies _ (ends-Readies (f ∷ rest) r1) λ b2 r2.
            then_Readies _ (resolve_mode_at-Readies r2.on m p) λ b3 r3. bodies-Readies bodies r3)

  -- What waits in a map is put at the operator.
  pub resolve_all-Reaches :
      (modes : ModeMap) {b : Modifier} {g : Special}
      → ModeKeys modes
      → On idx b g
      → Reaches idx b (resolve_all b modes idx) g
  unfolding resolve_all
  resolve_all-Reaches [] keys on = same-Reaches on
  resolve_all-Reaches ((mode, x) ∷ rest) keys on =
      then_Reaches _ (resolve_bodies-Reaches mode keys.0 x.flagged x.not_flagged on)
        λ b' on'. resolve_all-Reaches rest keys.1 on'

  -- A block is replaced at its start: by the body, or by nothing.
  pub block_alt-Reaches :
      {b : Modifier} {g : Special}
      → On idx b g
      → (body : List Operator) (retain_end : Bool) (op : Operator) → is_block_style_op op ≡ true
      → (b' : Modifier) × (plan_resolution_block_alt body b retain_end op idx
          ≡ ok (true, is_else op, b'))
        × Frame idx b b'
        × On idx b' g
  unfolding plan_resolution_block_alt
  block_alt-Reaches {b} {g} on body retain_end op style =
      let (b', e, framed, on') = placed in (b', rw (style, e) refl, framed, on')
    where
      placed :
          Reaches idx b
            (if is_empty body then empty_alternate_at b idx else inject_in b alternate idx body)
            g
      placed = elim (Bool-cases (is_empty body)) [
        | inl t ↦ rw t (empty_alternate_at-Reaches on)
        | inr u ↦ rw u (inject_in-Reaches on alternate tt body)
      ]

  place_bool_flag-Reaches :
      {b : Modifier} {g : Special}
      → On idx b g
      → (id : ℕ) (op : Operator) (body : List Operator)
      → Reaches idx b (place_bool_flag b id idx op body) g
  unfolding place_bool_flag
  place_bool_flag-Reaches {g = g} on id op body = Reaches-Readies (
      then_Readies _ (set_mode-Readies on before) λ b1 r1.
        then_Readies _
          (inject_all-Readies tt (numbered i32_const 1 ∷ numbered local_set id ∷ []) r1)
          λ b2 r2. then_Readies _ (set_mode-Readies r2.on after) λ b3 r3.
            then_Readies _
              (inject_all-Readies tt (numbered i32_const 0 ∷ numbered local_set id ∷ []) r3)
              λ b4 r4. fall_through b4 r4)
    where
      fall_through :
          (b4 : Modifier)
          → Ready idx after b4 g
          → Readies idx after b4 (if may_fall_through op then inject_all b4 body else ok b4) g
      fall_through b4 r4 = elim (Bool-cases (may_fall_through op)) [
        | inl t ↦ rw t (inject_all-Readies tt body r4)
        | inr u ↦ rw u (b4, refl, Frame-refl idx b4, r4)
      ]

  -- A new local for a flag.
  pub create_bool_flag-Reaches :
      {b : Modifier} {g : Special}
      → On idx b g
      → (op : Operator) (body : List Operator)
      → (id : ℕ) × (b' : Modifier) × (create_bool_flag b idx op body ≡ ok (id, b'))
        × Frame idx b b'
        × On idx b' g
  unfolding create_bool_flag modifier_add_local
  create_bool_flag-Reaches {b} {g} on op body =
      let (id, b0) = modifier_add_local b i32 in
      let on0 : On idx b0 g = record {
        flags = on.flags;
        flag = on.flag;
        op = on.op;
        has_flags = on.has_flags;
        at_flag = on.at_flag;
        at_op = on.at_op;
        no_mode = on.no_mode;
        specials = on.specials;
      } in
      let (b', e, framed, on') = place_bool_flag-Reaches on0 id op body in
      (
        id,
        b',
        rw e refl,
        record {
          same_ops = framed.same_ops;
          same_flags = framed.same_flags;
          same_length = framed.same_length;
          grown = framed.grown;
        },
        on',
      )
