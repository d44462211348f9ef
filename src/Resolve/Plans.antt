-- ===== src/Resolve/Plans.antt =====
-- The end of a round of `resolve_special_instrumentation` (ir/module/mod.rs): `block_entry`,
-- `block_exit` and `semantic_after` are resolved or planned, and cleared at the operator.
use wirm.Base.{
  ℕ, zero, suc, ◌-◌, ◌≡◌, ◌<◌, refl, ap, ◌∙◌, subst, true, some, List, [], ◌∷◌, ◌++◌, arith, ◌==◌,
  Bool-cases, Option-cases, inl, inr,
}
use wirm.Base.Maps.{HashMap, get, insert}
use wirm.Base.Results.{ok}
use wirm.Reindex.{Operator}
use wirm.Instr.{Mode, before, after, block_entry, block_exit, is_block_style_op}
use wirm.Modifier.{Modifier}
use wirm.Modifier.Effects.{Special, clear_special, On, Frame, Frame-refl, Frame-trans}
use wirm.Modifier.Laws.{clear_instr_at-Reaches}
use wirm.Resolve.{
  ModeMap, InstrToInject, upsert_mode, upsert_block, save_not_flagged_body_to_resolve_inner,
  save_not_flagged_body_to_resolve, insert_flagged, save_flagged_body_to_resolve, save_targets,
  same_mode, plan_resolution_block_exit, plan_resolution_semantic_after, closed_by_end, is_if, last,
  is_br_table, is_single_branch, br_targets, relative_depth,
}
use wirm.Resolve.Run.{Resolving, block_entry_step, block_exit_step}
use wirm.Resolve.Laws.{IsPlanned, ModeKeys, block_entry-Reaches, create_bool_flag-Reaches}
use wirm.Resolve.Steps.{Inv, Moves, stack_of, BlockKeys, with_builder}

module _ (mode : Mode) (p : IsPlanned mode) where
  upsert_mode-ModeKeys :
      (change : InstrToInject → InstrToInject) (fresh : InstrToInject) (m : ModeMap)
      → ModeKeys m
      → ModeKeys (upsert_mode mode change fresh m)
  unfolding upsert_mode
  upsert_mode-ModeKeys change fresh [] h = (p, tt)
  upsert_mode-ModeKeys change fresh ((k, x) ∷ m) h = elim (Bool-cases (same_mode k mode)) [
    | inl t ↦ rw t h
    | inr u ↦ rw u (h.0, upsert_mode-ModeKeys change fresh m h.1)
  ]

insert-BlockKeys :
    (id : ℕ) (v : ModeMap) (m : HashMap ModeMap)
    → ModeKeys v
    → BlockKeys m
    → BlockKeys (insert id v m)
unfolding insert
insert-BlockKeys id v [] hv h = (hv, tt)
insert-BlockKeys id v ((k, x) ∷ m) hv h = elim (Bool-cases (k == id)) [
  | inl t ↦ rw t (hv, h.1)
  | inr u ↦ rw u (h.0, insert-BlockKeys id v m hv h.1)
]

found-ModeKeys :
    (id : ℕ) (m : HashMap ModeMap) (old : ModeMap)
    → get id m ≡ some old
    → BlockKeys m
    → ModeKeys old
unfolding get
found-ModeKeys id [] old e h = cc
found-ModeKeys id ((k, x) ∷ m) old e h = elim (Bool-cases (k == id)) [
  | inl t ↦ let same : some x ≡ some old = rw t at e in let is : x ≡ old = cc in rw (← is) h.0
  | inr u ↦ found-ModeKeys id m old (rw u at e) h.1
]

upsert_block-BlockKeys :
    (id : ℕ) (change : ModeMap → ModeMap) (fresh : ModeMap) (m : HashMap ModeMap)
    → ((old : ModeMap) → ModeKeys old → ModeKeys (change old))
    → ModeKeys fresh
    → BlockKeys m
    → BlockKeys (upsert_block id change fresh m)
unfolding upsert_block
upsert_block-BlockKeys id change fresh m keep fine h = elim (Option-cases (get id m)) [
  | inl n ↦ rw n (insert-BlockKeys id fresh m fine h)
  | inr (old, e) ↦
      rw e (insert-BlockKeys id (change old) m (keep old (found-ModeKeys id m old e h)) h)
]

module _ (mode : Mode) (p : IsPlanned mode) (body : List Operator) where
  inner-ModeKeys :
      (m : ModeMap) → ModeKeys m → ModeKeys (save_not_flagged_body_to_resolve_inner m mode body)
  unfolding save_not_flagged_body_to_resolve_inner
  inner-ModeKeys m h = upsert_mode-ModeKeys mode p _ _ m h

  not_flagged-BlockKeys :
      (m : HashMap ModeMap) (id : ℕ)
      → BlockKeys m
      → BlockKeys (save_not_flagged_body_to_resolve m mode body id)
  unfolding save_not_flagged_body_to_resolve save_not_flagged_body_to_resolve_inner
  not_flagged-BlockKeys m id h =
      upsert_block-BlockKeys id _ _ m (λ old. upsert_mode-ModeKeys mode p _ _ old) (p, tt) h

  flagged-BlockKeys :
      (m : HashMap ModeMap) (flag depth curr : ℕ)
      → BlockKeys m
      → BlockKeys (save_flagged_body_to_resolve m mode body flag depth curr)
  unfolding save_flagged_body_to_resolve insert_flagged
  flagged-BlockKeys m flag depth curr h =
      upsert_block-BlockKeys _ _ _ m (λ old. upsert_mode-ModeKeys mode p _ _ old) (p, tt) h

targets-BlockKeys :
    (body : List Operator) (flag curr : ℕ) (targets : List ℕ) (m : HashMap ModeMap)
    → BlockKeys m
    → BlockKeys (save_targets m body flag targets curr)
unfolding save_targets
targets-BlockKeys body flag curr [] m h = h
targets-BlockKeys body flag curr (t ∷ targets) m h =
    targets-BlockKeys body flag curr targets _ (flagged-BlockKeys after tt body m flag t curr h)

pub Inv-same :
    {idx d : ℕ} {s : Resolving} {g g' : Special} → g ≡ g' → Inv idx d s g → Inv idx d s g'
Inv-same {idx} {d} {s} e inv = subst (λ x. Inv idx d s x) e inv

-- The innermost block, where there is one.
last-stack_of :
    {idx d : ℕ} {s : Resolving} {g : Special}
    → Inv idx d s g
    → 0 < d
    → last s.block_stack ≡ ok (d - 1)
unfolding stack_of
last-stack_of {d = zero} inv h = elim h [ ]
last-stack_of {d = suc d} inv h =
    let top : d ≡ suc d - 1 = omega arith in ap last inv.stack ∙ ap ok top

module _ {idx d : ℕ} {s : Resolving} {g : Special} (inv : Inv idx d s g) where
  pub block_entry_step-Moves :
      (body : List Operator) (op : Operator)
      → g.ent ≡ body
      → Moves idx d s (block_entry_step s body op idx) (clear_special block_entry g)
  unfolding block_entry_step
  block_entry_step-Moves [] op same =
      (s, refl, Frame-refl idx s.builder, Inv-same (ap (λ e. record g { ent = e }) same) inv)
  block_entry_step-Moves (o ∷ body) op same =
      let (b1, e1, f1, on1) = block_entry-Reaches inv.on (o ∷ body) op in
      let (b2, e2, f2, on2) = clear_instr_at-Reaches on1 block_entry tt in
      (
        record s { builder = b2 },
        rw (e1, e2) refl,
        Frame-trans idx s.builder b1 b2 f1 f2,
        with_builder inv b2 s.on_entry s.on_exit on2,
      )

  pub block_exit_step-Moves :
      (body : List Operator) (op : Operator)
      → g.ext ≡ body
      → (closed_by_end op ≡ true → 0 < d)
      → Moves idx d s (block_exit_step s body op idx) (clear_special block_exit g)
  unfolding block_exit_step plan_resolution_block_exit
  block_exit_step-Moves [] op same inside =
      (s, refl, Frame-refl idx s.builder, Inv-same (ap (λ e. record g { ext = e }) same) inv)
  block_exit_step-Moves (o ∷ body) op same inside =
      let (b, e, framed, on) = clear_instr_at-Reaches inv.on block_exit tt in
      elim (Bool-cases (is_if op)) [
        | inl t ↦ (
          record s {
            builder = b;
            on_else_or_end =
                save_not_flagged_body_to_resolve_inner s.on_else_or_end before (o ∷ body);
          },
          rw (t, e) refl,
          framed,
          record {
            on = on;
            stack = inv.stack;
            else_keys = inner-ModeKeys before tt (o ∷ body) s.on_else_or_end inv.else_keys;
            end_keys = inv.end_keys;
          },
        )
        | inr u ↦ elim (Bool-cases (closed_by_end op)) [
          | inl c ↦ (
            record s {
              builder = b;
              on_end = save_not_flagged_body_to_resolve s.on_end before (o ∷ body) (d - 1);
            },
            rw (u, c, last-stack_of inv (inside c), e) refl,
            framed,
            record {
              on = on;
              stack = inv.stack;
              else_keys = inv.else_keys;
              end_keys = not_flagged-BlockKeys before tt (o ∷ body) s.on_end (d - 1) inv.end_keys;
            },
          )
          | inr c ↦ (
            record s { builder = b },
            rw (u, c, e) refl,
            framed,
            with_builder inv b s.on_entry s.on_exit on,
          )
        ]
      ]

  -- What `semantic_after` plans.
  pub semantic_after-Plans :
      (body : List Operator) (op : Operator)
      → (is_block_style_op op ≡ true → 0 < d)
      → (is_br_table op ≡ true → 0 < d)
      → (is_single_branch op ≡ true → 0 < d)
      → (m : HashMap ModeMap) × (b : Modifier) × (plan_resolution_semantic_after body s.builder
            s.block_stack s.on_end op idx
          ≡ ok (m, b))
        × Frame idx s.builder b
        × On idx b g
        × BlockKeys m
  unfolding plan_resolution_semantic_after
  semantic_after-Plans body op in_style in_table in_single =
      elim (Bool-cases (is_block_style_op op)) [
        | inl t ↦ (
          save_not_flagged_body_to_resolve s.on_end after body (d - 1),
          s.builder,
          rw (t, last-stack_of inv (in_style t)) refl,
          Frame-refl idx s.builder,
          inv.on,
          not_flagged-BlockKeys after tt body s.on_end (d - 1) inv.end_keys,
        )
        | inr u ↦
            let (id, b, e, framed, on) = create_bool_flag-Reaches inv.on op body in
            elim (Bool-cases (is_br_table op)) [
              | inl t ↦
                  let targets = br_targets op ++ relative_depth op ∷ [] in
                  (
                    save_targets s.on_end body id targets (d - 1),
                    b,
                    rw (u, t, e, last-stack_of inv (in_table t)) refl,
                    framed,
                    on,
                    targets-BlockKeys body id (d - 1) targets s.on_end inv.end_keys,
                  )
              | inr v ↦ elim (Bool-cases (is_single_branch op)) [
                | inl t ↦ (
                  save_flagged_body_to_resolve s.on_end after body id (relative_depth op) (d - 1),
                  b,
                  rw (u, v, t, e, last-stack_of inv (in_single t)) refl,
                  framed,
                  on,
                  flagged-BlockKeys after tt body s.on_end id (relative_depth op) (d - 1)
                      inv.end_keys,
                )
                | inr w ↦ (
                  s.on_end,
                  s.builder,
                  rw (u, v, w) refl,
                  Frame-refl idx s.builder,
                  inv.on,
                  inv.end_keys,
                )
              ]
            ]
      ]
