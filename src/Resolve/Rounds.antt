-- ===== src/Resolve/Rounds.antt =====
-- The loop of `resolve_special_instrumentation` (ir/module/mod.rs): on a well-nested body it succeeds
-- and leaves no special mode.
use wirm.Base.{
  ℕ, zero, suc, ◌+◌, ◌≡◌, ◌≢◌, ◌<◌, refl, sym, subst, ap, ◌∙◌, true, none, some, List, [], ◌∷◌,
  arith, length, get_elem?, ◌==◌, Bool-cases, inl, inr,
}
use mathlib.Core.Option.{some-injective}
use wirm.Base.Results.{ok}
use wirm.Reindex.{Operator}
use wirm.Instr.{Flag}
use wirm.Modifier.Effects.{special, Frame, Grows-refl, GrowsAt, GrowsAt-trans}
use wirm.Resolve.Run.{Resolving, arm_of, rounds}
use wirm.Resolve.Laws.{ModeKeys, no_special}
use wirm.Resolve.Steps.{Inv, stack_of, BlockKeys}
use wirm.Resolve.Arms.{depth_after}
use wirm.Resolve.Round.{round-Moves, IsResolvable}

-- The loop before operator `idx`: every flag before it has no special mode, and the others are those
-- that are left to do. What was injected before and after the operators in `orig` is still there.
pub record Loop (idx d : ℕ) (s : Resolving) (all ops : List Operator) (flags orig : List Flag)
    : Type 0 where
  pub now : List Flag
  pub has_flags : s.builder.body.instructions.flags ≡ some now
  pub size : length now ≡ length orig
  pub grown : (j : ℕ) → GrowsAt j orig now
  pub same_ops : s.builder.body.instructions.instructions ≡ all
  pub no_mode : s.builder.instr_flag.current_mode ≡ none
  pub stack : s.block_stack ≡ stack_of d
  pub else_keys : ModeKeys s.on_else_or_end
  pub end_keys : BlockKeys s.on_end
  pub done : (j : ℕ) (f : Flag) → j < idx → get_elem? now j ≡ some f → special f ≡ no_special
  pub todo : (k : ℕ) → get_elem? now (idx + k) ≡ get_elem? flags k
  pub ops_left : (k : ℕ) → get_elem? all (idx + k) ≡ get_elem? ops k

module _ {idx d : ℕ} {s : Resolving} {all ops : List Operator} (op : Operator) (f : Flag)
    {flags orig : List Flag} (l : Loop idx d s all (op ∷ ops) (f ∷ flags) orig) where
  Loop-Inv : Inv idx d s (special f)
  Loop-Inv =
      let at : idx + 0 ≡ idx = omega arith in
      record {
        on = record {
          flags = l.now;
          flag = f;
          op = op;
          has_flags = l.has_flags;
          at_flag = rw at at (l.todo 0);
          at_op = rw l.same_ops (rw at at (l.ops_left 0));
          no_mode = l.no_mode;
          specials = refl;
        };
        stack = l.stack;
        else_keys = l.else_keys;
        end_keys = l.end_keys;
      }

  module _ {d' : ℕ} {s' : Resolving} (framed : Frame idx s.builder s'.builder)
      (inv : Inv idx d' s' no_special) where
    other_flags : (j : ℕ) → idx ≢ j → get_elem? inv.on.flags j ≡ get_elem? l.now j
    other_flags j ne = rw (inv.on.has_flags, l.has_flags) at (framed.same_flags j ne)

    done_flags :
        (j : ℕ) (f' : Flag)
        → j < suc idx
        → get_elem? inv.on.flags j ≡ some f'
        → special f' ≡ no_special
    done_flags j f' h e = elim (Bool-cases (idx == j)) [
      | inl t ↦
          let same : idx ≡ j = ground arith in
          let here : get_elem? inv.on.flags idx ≡ some f' = rw same e in
          let flag : inv.on.flag ≡ f' = some-injective _ _ (sym inv.on.at_flag ∙ here) in
          ap special (sym flag) ∙ inv.on.specials
      | inr u ↦
          let ne : idx ≢ j = λ x. (let y : (idx == j) ≡ true = ground arith in cc) in
          l.done j f' (ground arith) (sym (other_flags j ne) ∙ e)
    ]

    grown_flags : (j : ℕ) → GrowsAt j l.now inv.on.flags
    grown_flags j = elim (Bool-cases (idx == j)) [
      | inl t ↦
          let same : idx ≡ j = ground arith in
          let here : GrowsAt idx l.now inv.on.flags =
            rw (inv.on.has_flags, l.has_flags) at framed.grown in
          subst (λ i. GrowsAt i l.now inv.on.flags) same here
      | inr u ↦
          let ne : idx ≢ j = λ x. (let y : (idx == j) ≡ true = ground arith in cc) in
          λ f' e. (f', other_flags j ne ∙ e, Grows-refl f')
    ]

    Loop-next : Loop (suc idx) d' s' all ops flags orig
    Loop-next = record {
      now = inv.on.flags;
      has_flags = inv.on.has_flags;
      size =
          (let same : length inv.on.flags ≡ length l.now =
              rw (inv.on.has_flags, l.has_flags) at framed.same_length in
            same ∙ l.size);
      grown = λ j. GrowsAt-trans j orig l.now inv.on.flags (l.grown j) (grown_flags j);
      same_ops = framed.same_ops ∙ l.same_ops;
      no_mode = inv.on.no_mode;
      stack = inv.stack;
      else_keys = inv.else_keys;
      end_keys = inv.end_keys;
      done = done_flags;
      todo = λ k.
          (let on : idx + suc k ≡ suc idx + k = omega arith in
            other_flags (suc idx + k) (λ x. omega arith) ∙ (rw on at (l.todo (suc k))));
      ops_left =
          λ k. (let on : idx + suc k ≡ suc idx + k = omega arith in rw on at (l.ops_left (suc k)));
    }

-- The loop to its end.
pub rounds_lem :
    (d : ℕ) {idx : ℕ} {s : Resolving} {all : List Operator} (ops : List Operator)
    (flags : List Flag) {orig : List Flag}
    → Loop idx d s all ops flags orig
    → IsResolvable d ops flags
    → (s' : Resolving) × (rounds s ops flags idx ≡ ok s')
      × (end d' : ℕ) × Loop end d' s' all [] [] orig
unfolding rounds
rounds_lem d {idx} {s} [] [] l h = (s, refl, idx, d, l)
rounds_lem d [] (f ∷ flags) l h = absurd h
rounds_lem d (op ∷ ops) [] l h = absurd h
rounds_lem zero (op ∷ ops) (f ∷ flags) l h = absurd h
rounds_lem (suc d) {s = s} (op ∷ ops) (f ∷ flags) l h =
    let (s1, e, framed, inv) = round-Moves d f op (Loop-Inv op f l) h.0 in
    let (s2, e2, end, d', last) =
      rounds_lem (depth_after (arm_of op) (suc d)) ops flags (Loop-next op f l framed inv) h.1 in
    (s2, rw e e2, end, d', last)
