-- ===== src/Resolve/Steps.antt =====
-- The steps of one round of `resolve_special_instrumentation` (ir/module/mod.rs): with the stack of
-- blocks as deep as the nesting, none of them panics.
use wirm.Base.{
  ℕ, zero, suc, ◌-◌, ◌≡◌, refl, ap, Bool, true, false, none, List, [], ◌∷◌, length, ◌==◌,
  Bool-cases, inl, inr, All,
}
use wirm.Base.Maps.{HashMap, get}
use wirm.Base.Results.{Result, ok}
use wirm.Reindex.{Operator, end_op}
use wirm.Instr.{before, is_empty, is_none}
use wirm.Modifier.{Modifier}
use wirm.Modifier.Effects.{Special, On, Frame, Frame-refl, Frame-trans}
use wirm.Modifier.Laws.{empty_alternate_at-Reaches}
use wirm.Resolve.{ModeMap, plain, resolve_function_entry, resolve_function_exit, leaves_function}
use wirm.Resolve.Run.{
  Resolving, entry_step, exit_step, drop_op, drop_if_deleting, flush_else_or_end, remove_block,
  or_no_modes, flush_end,
}
use wirm.Resolve.Laws.{
  ModeKeys, no_special, inject_in-Reaches, clear_special-Reaches, resolve_all-Reaches,
}

-- The stack at nesting depth `d`, its last element first.
unfoldable pub stack_of : ℕ → List ℕ
stack_of zero = []
stack_of (suc d) = d ∷ stack_of d

abbrev pub BlockKeys : HashMap ModeMap → Type 0
BlockKeys m = All (λ e. ModeKeys e.1) m

-- The loop works at operator `idx`, whose flag has the special modes `g`, at nesting depth `d`.
pub record Inv (idx d : ℕ) (s : Resolving) (g : Special) : Type 0 where
  pub on : On idx s.builder g
  pub stack : s.block_stack ≡ stack_of d
  pub else_keys : ModeKeys s.on_else_or_end
  pub end_keys : BlockKeys s.on_end

abbrev pub Moves : ℕ → ℕ → Resolving → Result Resolving → Special → Type 0
Moves idx d s r g = (s' : Resolving) × (r ≡ ok s') × Frame idx s.builder s'.builder × Inv idx d s' g

-- A step that may skip the rest of the round: then no special mode is left, and else they are as
-- they were, `block_alt` among them not set.
abbrev pub Skips : Bool → Special → Special → Type 0
Skips true g g' = g' ≡ no_special
Skips false g g' = (g' ≡ g) × (g.alt ≡ none)

abbrev pub Turns : ℕ → ℕ → Resolving → Result (Resolving × Bool) → Special → Type 0
Turns idx d s r g =
    (s' : Resolving) × (skip : Bool) × (g' : Special) × (r ≡ ok (s', skip))
    × Frame idx s.builder s'.builder
    × Inv idx d s' g'
    × Skips skip g g'

pub length-stack_of : (d : ℕ) → length (stack_of d) ≡ d
unfolding stack_of
length-stack_of zero = refl
length-stack_of (suc d) = ap suc (length-stack_of d)

get-ModeKeys : (id : ℕ) (m : HashMap ModeMap) → BlockKeys m → ModeKeys (or_no_modes (get id m))
unfolding get
get-ModeKeys id [] h = tt
get-ModeKeys id ((k, x) ∷ m) h = elim (Bool-cases (k == id)) [
  | inl t ↦ rw t h.0
  | inr u ↦ rw u (get-ModeKeys id m h.1)
]

remove_block-BlockKeys :
    (id : ℕ) (m : HashMap ModeMap) → BlockKeys m → BlockKeys (remove_block id m)
unfolding remove_block
remove_block-BlockKeys id [] h = tt
remove_block-BlockKeys id ((k, x) ∷ m) h = elim (Bool-cases (k == id)) [
  | inl t ↦ rw t h.1
  | inr u ↦ rw u (h.0, remove_block-BlockKeys id m h.1)
]

exit-Reaches :
    {idx : ℕ} {b : Modifier} {g : Special}
    → On idx b g
    → (on_exit : List Operator) (op : Operator)
    → (b' : Modifier) × (rest : List Operator) × (resolve_function_exit b on_exit op idx
        ≡ ok (b', rest))
      × Frame idx b b'
      × On idx b' g
unfolding resolve_function_exit
exit-Reaches {idx} {b} on on_exit op = elim (Bool-cases (leaves_function op)) [
  | inl t ↦
      let (b', e, framed, on') = inject_in-Reaches on before tt on_exit in
      (b', on_exit, rw (t, e) refl, framed, on')
  | inr u ↦ elim (Bool-cases (idx == length b.body.instructions.instructions - 1)) [
    | inl z ↦
        let (b', e, framed, on') = inject_in-Reaches on before tt (plain end_op ∷ on_exit) in
        (b', [], rw (u, z, e) refl, framed, on')
    | inr z ↦ (b, on_exit, rw (u, z) refl, Frame-refl idx b, on)
  ]
]

module _ {idx d : ℕ} {s : Resolving} {g : Special} (inv : Inv idx d s g) where
  -- The same with another modifier and other bodies.
  pub with_builder :
      (b : Modifier) (on_entry on_exit : List Operator) {g' : Special}
      → On idx b g'
      → Inv idx d (record s { builder = b; on_entry = on_entry; on_exit = on_exit }) g'
  with_builder b on_entry on_exit on = record {
    on = on;
    stack = inv.stack;
    else_keys = inv.else_keys;
    end_keys = inv.end_keys;
  }

  pub entry_step-Moves : Moves idx d s (entry_step s idx) g
  unfolding entry_step resolve_function_entry
  entry_step-Moves = elim (Bool-cases (is_empty s.on_entry)) [
    | inl t ↦ (s, rw t refl, Frame-refl idx s.builder, inv)
    | inr u ↦ elim (Bool-cases (idx == 0)) [
      | inl z ↦
          let (b, e, framed, on) = inject_in-Reaches inv.on before tt s.on_entry in
          (
            record s { builder = b; on_entry = [] },
            rw (u, z, e) refl,
            framed,
            with_builder b [] s.on_exit on,
          )
      | inr z ↦ (s, rw (u, z) refl, Frame-refl idx s.builder, inv)
    ]
  ]

  pub exit_step-Moves : (op : Operator) → Moves idx d s (exit_step s op idx) g
  unfolding exit_step
  exit_step-Moves op = elim (Bool-cases (is_empty s.on_exit)) [
    | inl t ↦ (s, rw t refl, Frame-refl idx s.builder, inv)
    | inr u ↦
        let (b, rest, e, framed, on) = exit-Reaches inv.on s.on_exit op in
        (
          record s { builder = b; on_exit = rest },
          rw (u, e) refl,
          framed,
          with_builder b s.on_entry rest on,
        )
  ]

  pub drop_op-Turns : Turns idx d s (drop_op s idx) g
  unfolding drop_op
  drop_op-Turns =
      let (b1, e1, f1, on1) = clear_special-Reaches inv.on in
      let (b2, e2, f2, on2) = empty_alternate_at-Reaches on1 in
      (
        record s { builder = b2 },
        true,
        no_special,
        rw (e1, e2) refl,
        Frame-trans idx s.builder b1 b2 f1 f2,
        with_builder b2 s.on_entry s.on_exit on2,
        refl,
      )

  pub drop_if_deleting-Turns : g.alt ≡ none → Turns idx d s (drop_if_deleting s idx) g
  unfolding drop_if_deleting
  drop_if_deleting-Turns unset = elim (Bool-cases (is_none s.delete_block)) [
    | inl t ↦ (s, false, g, rw t refl, Frame-refl idx s.builder, inv, (refl, unset))
    | inr u ↦ rw u drop_op-Turns
  ]

  pub flush_else-Moves : Moves idx d s (flush_else_or_end s idx) g
  unfolding flush_else_or_end
  flush_else-Moves =
      let (b, e, framed, on) = resolve_all-Reaches s.on_else_or_end inv.else_keys inv.on in
      (
        record s { builder = b; on_else_or_end = [] },
        rw e refl,
        framed,
        record { on = on; stack = inv.stack; else_keys = tt; end_keys = inv.end_keys },
      )

  pub flush_end-Moves : (block_id : ℕ) → Moves idx d s (flush_end s block_id idx) g
  unfolding flush_end
  flush_end-Moves block_id =
      let (b, e, framed, on) =
        resolve_all-Reaches (or_no_modes (get block_id s.on_end))
          (get-ModeKeys block_id s.on_end inv.end_keys) inv.on in
      (
        record s { builder = b; on_end = remove_block block_id s.on_end },
        rw e refl,
        framed,
        record {
          on = on;
          stack = inv.stack;
          else_keys = inv.else_keys;
          end_keys = remove_block-BlockKeys block_id s.on_end inv.end_keys;
        },
      )
