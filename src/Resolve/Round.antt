-- ===== src/Resolve/Round.antt =====
-- One round of `resolve_special_instrumentation` (ir/module/mod.rs): in a block, it succeeds and leaves
-- no special mode at its operator.
use wirm.Base.{
  ℕ, zero, suc, ◌≡◌, ◌<◌, refl, ap, Bool, true, false, none, List, [], ◌∷◌, arith, if◌then◌else◌,
  Bool-cases, inl, inr,
}
use wirm.Base.Results.{ok}
use wirm.Reindex.{Operator}
use wirm.Instr.{Flag, semantic_after, is_block_style_op, has_instr}
use wirm.Modifier.Effects.{Special, special, clear_special, Frame-refl, Frame-trans}
use wirm.Modifier.Laws.{clear_instr_at-Reaches}
use wirm.Resolve.{closed_by_end, is_br_table, is_single_branch}
use wirm.Resolve.Run.{Resolving, arm_of, semantic_after_step, plan_step, round}
use wirm.Resolve.Laws.{no_special}
use wirm.Resolve.Steps.{Inv, Moves, Skips, entry_step-Moves, exit_step-Moves}
use wirm.Resolve.Arms.{depth_after, IsModal, arm_step-Turns}
use wirm.Resolve.Plans.{
  Inv-same, block_entry_step-Moves, block_exit_step-Moves, semantic_after-Plans,
}

-- The operators that plan something for a block stand in one.
abbrev IsInside : Operator → ℕ → Type 0
IsInside op d =
    (closed_by_end op ≡ true → 0 < d)
    × (is_block_style_op op ≡ true → 0 < d)
    × (is_br_table op ≡ true → 0 < d)
    × (is_single_branch op ≡ true → 0 < d)

is_inside : (op : Operator) (d : ℕ) → IsInside op (depth_after (arm_of op) (suc d))
unfolding closed_by_end is_single_branch is_block_style_op arm_of depth_after
is_inside op d = ground arith

without_instr : (f : Flag) → has_instr f ≡ false → special f ≡ no_special
unfolding has_instr
without_instr f h = ground arith

module _ {idx d : ℕ} {s : Resolving} {g : Special} (inv : Inv idx d s g) where
  semantic_after_step-Moves :
      (body : List Operator) (op : Operator)
      → g.sem ≡ body
      → IsInside op d
      → Moves idx d s (semantic_after_step s body op idx) (clear_special semantic_after g)
  unfolding semantic_after_step
  semantic_after_step-Moves [] op same inside =
      (s, refl, Frame-refl idx s.builder, Inv-same (ap (λ e. record g { sem = e }) same) inv)
  semantic_after_step-Moves (o ∷ body) op same inside =
      let (m, b1, e1, f1, on1, keys) =
        semantic_after-Plans inv (o ∷ body) op inside.1 inside.2 inside.3 in
      let (b2, e2, f2, on2) = clear_instr_at-Reaches on1 semantic_after tt in
      (
        record s { builder = b2; on_end = m },
        rw (e1, e2) refl,
        Frame-trans idx s.builder b1 b2 f1 f2,
        record { on = on2; stack = inv.stack; else_keys = inv.else_keys; end_keys = keys },
      )

plan_step-Moves :
    {idx d : ℕ} {s : Resolving} (f : Flag) (op : Operator)
    → Inv idx d s (special f)
    → f.at_block_alt ≡ none
    → IsInside op d
    → Moves idx d s (plan_step s f op idx) no_special
unfolding plan_step
plan_step-Moves {idx} {d} {s} f op inv unset inside = elim (Bool-cases (has_instr f)) [
  | inl t ↦
      let (s1, e1, f1, inv1) = block_entry_step-Moves inv f.at_block_entry.instrs op refl in
      let (s2, e2, f2, inv2) = block_exit_step-Moves inv1 f.at_block_exit.instrs op refl inside.0 in
      let (s3, e3, f3, inv3) =
        semantic_after_step-Moves inv2 f.at_semantic_after.instrs op refl inside in
      (
        s3,
        rw (t, e1, e2, e3) refl,
        Frame-trans idx s.builder s1.builder s3.builder f1
            (Frame-trans idx s1.builder s2.builder s3.builder f2 f3),
        Inv-same (ap (λ a. record no_special { alt = a }) unset) inv3,
      )
  | inr u ↦ (s, rw u refl, Frame-refl idx s.builder, Inv-same (without_instr f u) inv)
]

-- The end of a round, unless it is skipped.
finish_round :
    {idx d : ℕ} {s : Resolving} {g' : Special} (skip : Bool) (f : Flag) (op : Operator)
    → Inv idx d s g'
    → Skips skip (special f) g'
    → IsInside op d
    → Moves idx d s (if skip then ok s else plan_step s f op idx) no_special
finish_round {idx} {s = s} true f op inv left inside =
    (s, refl, Frame-refl idx s.builder, Inv-same left inv)
finish_round false f op inv left inside = plan_step-Moves f op (Inv-same left.0 inv) left.1 inside

pub round-Moves :
    {idx : ℕ} (d : ℕ) {s : Resolving} (f : Flag) (op : Operator)
    → Inv idx (suc d) s (special f)
    → IsModal f op
    → Moves idx (depth_after (arm_of op) (suc d)) s (round s f op idx) no_special
unfolding round
round-Moves {idx} d {s} f op inv modal =
    let (s1, e1, f1, inv1) = entry_step-Moves inv in
    let (s2, e2, f2, inv2) = exit_step-Moves inv1 op in
    let (s3, skip, g', e3, f3, inv3, left) = arm_step-Turns d f op (arm_of op) refl inv2 modal in
    let (s4, e4, f4, inv4) = finish_round skip f op inv3 left (is_inside op d) in
    (
      s4,
      rw (e1, e2, e3) e4,
      Frame-trans idx s.builder s1.builder s4.builder f1 (
          Frame-trans idx s1.builder s2.builder s4.builder f2
            (Frame-trans idx s2.builder s3.builder s4.builder f3 f4)),
      inv4,
    )

-- A body whose blocks nest, from depth `d` on, with a flag for each operator: no operator stands
-- after the end of the function, and `block_alt` is set at the start of a block only.
abbrev pub IsResolvable : ℕ → List Operator → List Flag → Type 0
IsResolvable d [] [] = Unit
IsResolvable zero (op ∷ ops) (f ∷ flags) = ⊥
IsResolvable (suc d) (op ∷ ops) (f ∷ flags) =
    IsModal f op × IsResolvable (depth_after (arm_of op) (suc d)) ops flags
IsResolvable d [] (f ∷ flags) = ⊥
IsResolvable d (op ∷ ops) [] = ⊥
