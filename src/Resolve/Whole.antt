-- ===== src/Resolve/Whole.antt =====
-- `resolve_special_instrumentation` (ir/module/mod.rs) on a whole function: what it leaves can be encoded.
use wirm.Base.{
  ℕ, zero, suc, ◌+◌, ◌-◌, ◌≡◌, ◌<◌, refl, sym, ap, ◌∙◌, true, not, Option, none, some, List, [],
  ◌∷◌, arith, length, length-set, ltb, if◌then◌else◌, get_elem?, get_elem?_of_lt, get_elem?-lt,
  get_elem?-set_self, get_elem?-set_ne, ◌==◌, ◌≢◌, subst, set, Bool-cases, inl, inr,
  All-of_get_elem?,
}
use mathlib.Core.Option.{some-injective}
use wirm.Base.Results.{ok}
use wirm.Reindex.{Operator}
use wirm.Instr.{Flag, Mode, before, check_special_is_resolved}
use wirm.Instr.Code.{flags_of, set_current_mode, at_flag, force_flags}
use wirm.Body.{Body}
use wirm.Modifier.{Modifier, FuncFlag, init, func_finish_instr, set_instrument_mode_at}
use wirm.Modifier.Effects.{special, Grows, Grows-refl, GrowsAt}
use wirm.Emit.Total.{IsCovered}
use wirm.Resolve.{resolve_function_exit_with_block_wrapper}
use wirm.Resolve.Run.{
  Resolving, arm_of, start, cleared_flag, wrapped_entry, resolve_special, resolve_function,
}
use wirm.Resolve.Laws.{no_special}
use wirm.Resolve.Steps.{stack_of}
use wirm.Resolve.Arms.{depth_after}
use wirm.Resolve.Round.{IsResolvable}
use wirm.Resolve.Rounds.{Loop, rounds_lem}

resolved_of_special : (f : Flag) → special f ≡ no_special → check_special_is_resolved f ≡ ok tt
unfolding check_special_is_resolved
resolved_of_special f h =
    let sem : f.at_semantic_after.instrs ≡ [] = ap (λ g. g.sem) h in
    let ent : f.at_block_entry.instrs ≡ [] = ap (λ g. g.ent) h in
    let ext : f.at_block_exit.instrs ≡ [] = ap (λ g. g.ext) h in
    let alt : f.at_block_alt ≡ none = ap (λ g. g.alt) h in rw (sem, ent, ext, alt) refl

length_of_IsResolvable :
    (d : ℕ) (ops : List Operator) (flags : List Flag)
    → IsResolvable d ops flags
    → length flags ≡ length ops
length_of_IsResolvable d [] [] h = refl
length_of_IsResolvable d [] (f ∷ flags) h = absurd h
length_of_IsResolvable d (op ∷ ops) [] h = absurd h
length_of_IsResolvable zero (op ∷ ops) (f ∷ flags) h = absurd h
length_of_IsResolvable (suc d) (op ∷ ops) (f ∷ flags) h =
    ap suc (length_of_IsResolvable (depth_after (arm_of op) (suc d)) ops flags h.1)

-- Choosing a mode at one operator keeps the body resolvable.
IsResolvable-set :
    (d : ℕ) (ops : List Operator) (flags : List Flag) (i : ℕ) (f : Flag) (m : Option Mode)
    → IsResolvable d ops flags
    → get_elem? flags i ≡ some f
    → IsResolvable d ops (set flags i (record f { current_mode = m }))
IsResolvable-set d [] [] i f m h e = tt
IsResolvable-set d [] (g ∷ flags) i f m h e = absurd h
IsResolvable-set d (op ∷ ops) [] i f m h e = absurd h
IsResolvable-set zero (op ∷ ops) (g ∷ flags) i f m h e = absurd h
IsResolvable-set (suc d) (op ∷ ops) (g ∷ flags) zero f m h e =
    let same : g ≡ f = some-injective _ _ e in
    (λ t. sym (ap (λ x. x.at_block_alt) same) ∙ h.0 t, h.1)
IsResolvable-set (suc d) (op ∷ ops) (g ∷ flags) (suc i) f m h e =
    (h.0, IsResolvable-set (depth_after (arm_of op) (suc d)) ops flags i f m h.1 e)

-- The modifier at the start of the loop.
abbrev at_start : FuncFlag → Body → List ℕ → Flag → Modifier
at_start flag body args f = record {
  instr_flag = flag;
  body = record body {
    instructions = record body.instructions {
      flags = some (
          set (flags_of body.instructions) (length body.instructions.instructions - 1)
            (record f { current_mode = some before }));
    };
  };
  args = args;
  instr_idx = some (length body.instructions.instructions - 1);
}

init_lem :
    (flag : FuncFlag) (body : Body) (args : List ℕ) (f : Flag)
    → get_elem? (flags_of body.instructions) (length body.instructions.instructions - 1) ≡ some f
    → init flag body args ≡ ok (at_start flag body args f)
unfolding init set_instrument_mode_at set_current_mode at_flag force_flags
init_lem flag body args f e = rw e refl

-- Choosing a mode loses nothing.
grown_of_set :
    (flags : List Flag) (i : ℕ) (f : Flag) (m : Option Mode)
    → get_elem? flags i ≡ some f
    → (j : ℕ) → GrowsAt j flags (set flags i (record f { current_mode = m }))
grown_of_set flags i f m at j g e = elim (Bool-cases (i == j)) [
  | inl t ↦
      let same : i ≡ j = ground arith in
      let flag : f ≡ g = some-injective _ _ (sym at ∙ rw same e) in
      (
        record f { current_mode = m },
        rw (sym same) (get_elem?-set_self flags i _ (get_elem?-lt flags i at)),
        subst (λ x. Grows x (record f { current_mode = m })) flag (Grows-refl f),
      )
  | inr u ↦
      let ne : i ≢ j = λ x. (let y : (i == j) ≡ true = ground arith in cc) in
      (g, get_elem?-set_ne flags _ ne ∙ e, Grows-refl g)
]

-- The loop at its start, on a modifier whose function has no mode of its own.
Loop-start :
    (flag : FuncFlag) (body : Body) (args : List ℕ) (f : Flag) (on_entry on_exit : List Operator)
    → flag.current_mode ≡ none
    → get_elem? (flags_of body.instructions) (length body.instructions.instructions - 1) ≡ some f
    → Loop 0 1
        (start (at_start flag body args f) on_entry on_exit)
        body.instructions.instructions
        body.instructions.instructions
        (set
          (flags_of body.instructions)
          (length body.instructions.instructions - 1)
          (record f { current_mode = some before }))
        (flags_of body.instructions)
unfolding stack_of
Loop-start flag body args f on_entry on_exit no_mode at = record {
  now =
      set (flags_of body.instructions) (length body.instructions.instructions - 1)
        (record f { current_mode = some before });
  has_flags = refl;
  size = length-set (flags_of body.instructions) _ _;
  grown =
      grown_of_set (flags_of body.instructions) (length body.instructions.instructions - 1) f _ at;
  same_ops = refl;
  no_mode = no_mode;
  stack = refl;
  else_keys = tt;
  end_keys = tt;
  done = λ j f' h e. absurd (omega arith);
  todo = λ k. (let e : 0 + k ≡ k = omega arith in rw e refl);
  ops_left = λ k. (let e : 0 + k ≡ k = omega arith in rw e refl);
}

-- At its end no flag has a special mode left.
Loop-end :
    {idx d : ℕ} {s : Resolving} {all : List Operator} {orig : List Flag}
    → Loop idx d s all [] [] orig
    → length orig ≡ length all
    → IsCovered s.builder.body.instructions.flags 0 (length all)
Loop-end {idx} l size = rw l.has_flags (
  omega (arith, l.size),
  All-of_get_elem? _ l.now λ j f e. resolved_of_special f (resolved j f e),
)
  where
    resolved : (j : ℕ) (f : Flag) → get_elem? l.now j ≡ some f → special f ≡ no_special
    resolved j f e = elim (Bool-cases (ltb j idx)) [
      | inl t ↦ l.done j f (ground arith) e
      | inr u ↦
          let at : idx + (j - idx) ≡ j = ground arith in
          let past : get_elem? l.now j ≡ none = rw at at (l.todo (j - idx)) in cc
    ]

wrapped_entry_lem :
    (on_entry on_exit : List Operator) (ty : ℕ)
    → (wrapped : List Operator) × (wrapped_entry on_entry on_exit (ok ty) ≡ ok wrapped)
unfolding wrapped_entry
wrapped_entry_lem on_entry [] ty = (on_entry, refl)
wrapped_entry_lem on_entry (o ∷ on_exit) ty =
    (resolve_function_exit_with_block_wrapper on_entry ty, refl)

module _ (flag : FuncFlag) (body : Body) (args : List ℕ) (block_ty : ℕ)
    (has_special : flag.has_special_instr ≡ true)
    (some_op : 0 < length body.instructions.instructions)
    (nested : IsResolvable 1 body.instructions.instructions (flags_of body.instructions)) where
  abbrev ops : List Operator
  ops = body.instructions.instructions

  abbrev orig : List Flag
  orig = flags_of body.instructions

  -- The loop reaches its end.
  resolve_function_end :
      (s : Resolving) × (end d : ℕ) × (resolve_function flag body args (ok block_ty)
        ≡ ok (s.builder.instr_flag, s.builder.body))
      × Loop end d s ops [] [] orig
  unfolding resolve_function
  resolve_function_end =
      let size = length_of_IsResolvable 1 ops orig nested in
      let (f, at) = get_elem?_of_lt orig (length ops - 1) (omega (arith, size)) in
      let flag0 = func_finish_instr (cleared_flag flag) in
      let (on_entry, wrapped) = wrapped_entry_lem flag.entry.instrs flag.exit.instrs block_ty in
      let (s, e, end, d, l) =
        rounds_lem 1 ops (set orig (length ops - 1) (record f { current_mode = some before }))
          (Loop-start flag0 body args f on_entry flag.exit.instrs refl at)
          (IsResolvable-set 1 ops orig (length ops - 1) f (some before) nested at) in
      (
        s,
        end,
        d,
        ap
              (λ special'.
                if not special'
                then ok (flag, body)
                else resolve_special flag body args (ok block_ty))
              has_special
            ∙ rw (wrapped, init_lem flag0 body args f at, e) refl,
        l,
      )

  -- On a function that has special instrumentation and a body that is not empty and resolvable,
  -- resolving the special instrumentation succeeds, where the type of the wrapping block can be
  -- had, keeps the operators, and leaves a flag for every operator with no special mode in it,
  -- which is what `encode_function` asks of the flags.
  pub resolve_function-IsCovered :
      (flag' : FuncFlag) × (body' : Body) × (resolve_function flag body args (ok block_ty)
        ≡ ok (flag', body'))
      × (body'.instructions.instructions ≡ ops)
      × IsCovered body'.instructions.flags 0 (length body'.instructions.instructions)
  resolve_function-IsCovered =
      let (s, end, d, e, l) = resolve_function_end in
      (
        s.builder.instr_flag,
        s.builder.body,
        e,
        l.same_ops,
        rw l.same_ops (Loop-end l (length_of_IsResolvable 1 ops orig nested)),
      )

  -- On a function that has special instrumentation and a body that is not empty and resolvable,
  -- resolving the special instrumentation succeeds, where the type of the wrapping block can be
  -- had, and what was injected before and after an operator of the body is then still there,
  -- followed by what the resolution puts there.
  pub resolve_function-Grows :
      (j : ℕ) (f : Flag)
      → get_elem? orig j ≡ some f
      → (flag' : FuncFlag) × (body' : Body) × (f' : Flag) × (resolve_function flag body args
            (ok block_ty)
          ≡ ok (flag', body'))
        × (get_elem? (flags_of body'.instructions) j ≡ some f')
        × Grows f f'
  resolve_function-Grows j f at =
      let (s, end, d, e, l) = resolve_function_end in
      let (f', at', grown) = l.grown j f at in
      (s.builder.instr_flag, s.builder.body, f', e, rw l.has_flags at', grown)
