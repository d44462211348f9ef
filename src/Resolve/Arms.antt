-- ===== src/Resolve/Arms.antt =====
-- The `match` of `resolve_special_instrumentation` (ir/module/mod.rs) on the operator: each arm either
-- drops the operator's special modes and skips the rest of the round, or leaves them to it.
use wirm.Base.{
  ℕ, zero, suc, ◌≡◌, refl, ap, ◌∙◌, Bool, true, false, Option, none, some, ◌∷◌, arith, length, ◌==◌,
  Bool-cases, inl, inr,
}
use wirm.Base.Results.{ok}
use wirm.Reindex.{Operator}
use wirm.Instr.{Flag, InjectedInstrs, is_none, is_block_style_op}
use wirm.Modifier.Effects.{Special, special, Frame-trans}
use wirm.Resolve.{last, is_else}
use wirm.Resolve.Run.{
  Resolving, Arm, opens, alternates, closes, other, arm_of, arm_step, after_alt, alt_step, flush,
  end_deleted, close_block, end_step,
}
use wirm.Resolve.Laws.{no_special, clear_special-Reaches, block_alt-Reaches}
use wirm.Resolve.Steps.{
  Inv, Turns, stack_of, length-stack_of, drop_op-Turns, drop_if_deleting-Turns, flush_else-Moves,
  flush_end-Moves,
}

-- How deep the blocks nest after an operator.
unfoldable pub depth_after : Arm → ℕ → ℕ
depth_after opens d = suc d
depth_after alternates d = d
depth_after closes zero = zero
depth_after closes (suc d) = d
depth_after other d = d

-- `block_alt` is set at the start of a block only.
abbrev pub IsModal : Flag → Operator → Type 0
IsModal f op = is_block_style_op op ≡ false → f.at_block_alt ≡ none

not_style :
    (op : Operator)
    → (arm_of op ≡ closes → is_block_style_op op ≡ false)
      × (arm_of op ≡ other → is_block_style_op op ≡ false)
unfolding arm_of is_block_style_op
not_style op = ground arith

module _ {idx d : ℕ} {s : Resolving} {g : Special} where
  flush-Turns :
      Inv idx d s g → g.alt ≡ none → (block_id : ℕ) → Turns idx d s (flush s block_id idx) g
  unfolding flush
  flush-Turns inv unset block_id =
      let (s1, e1, f1, inv1) = flush_else-Moves inv in
      let (s2, e2, f2, inv2) = flush_end-Moves inv1 block_id in
      (
        s2,
        false,
        g,
        rw (e1, e2) refl,
        Frame-trans idx s.builder s1.builder s2.builder f1 f2,
        inv2,
        (refl, unset),
      )

  alt_step-Turns :
      Inv idx (suc d) s g
      → (alt : Option InjectedInstrs) (op : Operator) → g.alt ≡ alt
      → (is_block_style_op op ≡ false → alt ≡ none)
      → Turns idx (suc d) s (alt_step s alt op idx) g
  unfolding alt_step after_alt stack_of
  alt_step-Turns inv none op same modal = drop_if_deleting-Turns inv same
  alt_step-Turns inv (some a) op same modal = elim (Bool-cases (is_none s.delete_block)) [
    | inl t ↦ elim (Bool-cases (is_block_style_op op)) [
      | inl style ↦
          let (b1, e1, f1, on1) = block_alt-Reaches inv.on a.instrs s.retain_end op style in
          let (b2, e2, f2, on2) = clear_special-Reaches on1 in
          let top : last s.block_stack ≡ ok d = ap last inv.stack in
          (
            record s { builder = b2; retain_end = is_else op; delete_block = some d },
            true,
            no_special,
            rw (t, e1, e2, top) refl,
            Frame-trans idx s.builder b1 b2 f1 f2,
            record {
              on = on2;
              stack = inv.stack;
              else_keys = inv.else_keys;
              end_keys = inv.end_keys;
            },
            refl,
          )
      | inr plain ↦ absurd (let clash : some a ≡ none = modal plain in cc)
    ]
    | inr u ↦ rw u (drop_op-Turns inv)
  ]

  end_deleted-Turns :
      (retain : Bool)
      → Inv idx d s g
      → g.alt ≡ none
      → (block_id : ℕ) → Turns idx d s (end_deleted retain s block_id idx) g
  unfolding end_deleted
  end_deleted-Turns true inv unset block_id = flush-Turns inv unset block_id
  end_deleted-Turns false inv unset block_id = drop_op-Turns inv

module _ {idx d : ℕ} {g : Special} where
  close_block-Turns :
      (deleting : Option ℕ) {s : Resolving}
      → Inv idx d s g
      → g.alt ≡ none
      → (block_id : ℕ) → Turns idx d s (close_block deleting s block_id idx) g
  unfolding close_block
  close_block-Turns none inv unset block_id = flush-Turns inv unset block_id
  close_block-Turns (some deleted) {s} inv unset block_id =
      elim (Bool-cases (deleted == block_id)) [
        | inl t ↦
            let s' = record s { delete_block = none; retain_end = true } in
            let inv' : Inv idx d s' g = record {
              on = inv.on;
              stack = inv.stack;
              else_keys = inv.else_keys;
              end_keys = inv.end_keys;
            } in
            rw t (end_deleted-Turns s.retain_end inv' unset block_id)
        | inr u ↦ rw u (drop_op-Turns inv)
      ]

  end_step-Turns :
      {s : Resolving}
      → Inv idx (suc d) s g
      → g.alt ≡ none
      → Turns idx d s (end_step s s.block_stack idx) g
  unfolding end_step stack_of
  end_step-Turns {s} inv unset =
      let s' = record s { block_stack = stack_of d } in
      let inv' : Inv idx d s' g = record {
        on = inv.on;
        stack = refl;
        else_keys = inv.else_keys;
        end_keys = inv.end_keys;
      } in
      let (s2, skip, g', e, framed, inv2, left) = close_block-Turns s.delete_block inv' unset d in
      (s2, skip, g', ap (λ st. end_step s st idx) inv.stack ∙ e, framed, inv2, left)

-- One operator, which stands inside a block.
pub arm_step-Turns :
    {idx : ℕ} (d : ℕ) {s : Resolving} (f : Flag) (op : Operator) (arm : Arm)
    → arm_of op ≡ arm
    → Inv idx (suc d) s (special f)
    → IsModal f op
    → Turns idx (depth_after arm (suc d)) s (arm_step s arm f op idx) (special f)
unfolding arm_step depth_after stack_of
arm_step-Turns d {s} f op opens e inv modal =
    let inv' : Inv _ (suc (suc d)) (record s { block_stack = length s.block_stack ∷ s.block_stack })
        (special f) =
      record {
        on = inv.on;
        stack =
            ap (λ st. length st ∷ st) inv.stack
            ∙ ap (λ n. n ∷ stack_of (suc d)) (length-stack_of (suc d));
        else_keys = inv.else_keys;
        end_keys = inv.end_keys;
      } in
    alt_step-Turns inv' f.at_block_alt op refl modal
arm_step-Turns {idx} d {s} f op alternates e inv modal =
    let (s1, e1, f1, inv1) = flush_else-Moves inv in
    let (s2, skip, g', e2, f2, inv2, left) = alt_step-Turns inv1 f.at_block_alt op refl modal in
    (s2, skip, g', rw e1 e2, Frame-trans idx s.builder s1.builder s2.builder f1 f2, inv2, left)
arm_step-Turns d f op closes e inv modal = end_step-Turns inv (modal ((not_style op).0 e))
arm_step-Turns d f op other e inv modal = drop_if_deleting-Turns inv (modal ((not_style op).1 e))
