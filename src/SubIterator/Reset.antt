-- ===== src/SubIterator/Reset.antt =====
-- `new` and `reset` of subiterator/module_subiterator.rs: what a walk from a fresh cursor meets.
use wirm.Base.{
  ℕ, suc, ◌+◌, ◌-◌, ◌≡◌, ◌≤◌, ◌<◌, refl, ap, ◌∙◌, true, false, List, [], ◌∷◌, ◌++◌, arith, length,
  get_elem?_of_ge, inl, inr, ltb,
}
use mathlib.Core.List.{append-nil}
use wirm.SubIterator.{
  ModuleSubIterator, FuncSubIterator, contains, func_at, skips_from, handle_skips, new_func, next,
  next_function, new, reset, reset_functions,
}
use wirm.SubIterator.Walk.{places, all_places, drop_skipped, total, here, go_on, walk}
use wirm.SubIterator.Skips.{
  func_at-append, all_places-drop_skipped, skips_from_lem, skips_stop, skips_pass,
}
use wirm.SubIterator.Laws.{
  cursor, HasInstrs, List-cases, entered_places, all_places-nil, walk-cursor,
}

abbrev fresh : List (ℕ × ℕ) → List ℕ → ℕ → ℕ → ModuleSubIterator
fresh meta skip idx n = record {
  curr_idx = idx;
  metadata = meta;
  func_iterator = new_func n;
  skip_funcs = skip;
}

-- Past the last function there is nothing to meet.
walk_past :
    (fuel : ℕ) (meta : List (ℕ × ℕ)) (skip : List ℕ) (idx : ℕ)
    → length meta ≤ idx
    → walk (suc fuel) (fresh meta skip idx 0) ≡ ([], true)
unfolding walk next next_function here go_on
walk_past fuel meta skip idx h =
    let past : ltb (idx + 1) (length meta) ≡ false = ground arith in
    let off : ltb idx (length meta) ≡ false = ground arith in rw (past, off) refl

func_at_past : (meta : List (ℕ × ℕ)) (idx : ℕ) → length meta ≤ idx → (func_at meta idx).1 ≡ 0
unfolding func_at
func_at_past meta idx h = rw (get_elem?_of_ge meta idx h) refl

reset_start :
    (m : ℕ × ℕ) (rest : List (ℕ × ℕ)) (skip : List ℕ) (func' : FuncSubIterator)
    → reset_functions
        (m ∷ rest)
        (record { curr_idx = 0; metadata = m ∷ rest; func_iterator = func'; skip_funcs = skip })
      ≡ fresh
          (m ∷ rest)
          skip
          (skips_from (suc (length rest)) skip (m ∷ rest) 0)
          (func_at (m ∷ rest) (skips_from (suc (length rest)) skip (m ∷ rest) 0)).1
unfolding reset_functions handle_skips
reset_start m rest skip func' = refl

reset_walk :
    (meta : List (ℕ × ℕ)) (skip : List ℕ) (func' : FuncSubIterator)
    → HasInstrs meta
    → walk (suc (total meta)) (
        reset_functions meta
          (record { curr_idx = 0; metadata = meta; func_iterator = func'; skip_funcs = skip }))
      ≡ (all_places skip meta, true)
unfolding reset_functions
reset_walk [] skip func' has = rw (all_places-nil skip) (walk_past _ [] skip 0 (omega arith))
reset_walk (m ∷ rest) skip func' has =
    let (passed, e, stop) = skips_from_lem (suc (length rest)) skip [] m rest (omega arith) in
    elim (List-cases (drop_skipped skip (m ∷ rest))) [
      | inl none_left ↦
          let all : m ∷ rest ≡ passed = e ∙ rw none_left (append-nil passed) in
          let past : length (m ∷ rest) ≤ length passed =
            omega (arith, ap (λ (l : List (ℕ × ℕ)). length l) all) in
          rw
            (
              reset_start m rest skip func',
              stop,
              func_at_past (m ∷ rest) (length passed) past,
              ← all_places-drop_skipped skip (m ∷ rest),
              none_left,
              all_places-nil skip,
            )
            (walk_past _ (m ∷ rest) skip (length passed) past)
      | inr (g, l, rest', left) ↦
          let (some_instr, has', fits, met) = entered_places skip (m ∷ rest) g l rest' left has in
          let meta : m ∷ rest ≡ passed ++ (g, l) ∷ rest' = rw left at e in
          let landed : fresh (m ∷ rest) skip (length passed) (func_at (m ∷ rest) (length passed)).1
              ≡ cursor skip passed g l l rest' 0 =
            rw (meta, func_at-append passed (g, l) rest') refl in
          let size : suc (l - 1) ≡ l = omega arith in
          let ih =
            walk-cursor (suc (total (m ∷ rest))) skip passed g l l rest' 0 (l - 1) (omega arith)
              has' (omega arith) in
          rw (reset_start m rest skip func', stop, landed, ih, met, size) refl
    ]

-- Wherever it stood before, a cursor that is reset meets, by `next`, every operator of every
-- function that is not skipped, in order and once each, and then `next` is false, if every
-- function has an operator. No more steps are taken than there are operators.
pub walk-reset :
    (it : ModuleSubIterator)
    → HasInstrs it.metadata
    → walk (suc (total it.metadata)) (reset it) ≡ (all_places it.skip_funcs it.metadata, true)
unfolding reset
walk-reset it has = reset_walk it.metadata it.skip_funcs it.func_iterator has

pub new-cursor :
    (f n : ℕ) (rest : List (ℕ × ℕ)) (skip : List ℕ)
    → contains skip f ≡ false
    → new ((f, n) ∷ rest) skip ≡ cursor skip [] f n n rest 0
unfolding new handle_skips
new-cursor f n rest skip kept = rw (skips_stop (length rest) skip ((f, n) ∷ rest) 0 kept) refl

-- A new cursor whose first function is not skipped meets, by `next`, every operator of every function
-- that is not skipped, in order and once each, and then `next` is false, if every function has an
-- operator.
walk-new :
    (f n : ℕ) (rest : List (ℕ × ℕ)) (skip : List ℕ)
    → contains skip f ≡ false
    → HasInstrs ((f, n) ∷ rest)
    → walk (suc (n + total rest)) (new ((f, n) ∷ rest) skip)
      ≡ (places f 0 n ++ all_places skip rest, true)
walk-new f n rest skip kept has =
    let size : suc (n - 1) ≡ n = omega (arith, has.0) in
    let ih =
      walk-cursor (suc (n + total rest)) skip [] f n n rest 0 (n - 1) (omega (arith, has.0)) has.1
        (omega (arith, has.0)) in
    rw (new-cursor f n rest skip kept, ih, size) refl

-- A new cursor whose first function is skipped, and whose second is not, meets as many operators
-- of the second as the first one has, in place of those that the second has.
pub walk-new_skipped :
    (f n g l : ℕ) (rest : List (ℕ × ℕ)) (skip : List ℕ)
    → contains skip f ≡ true
    → contains skip g ≡ false
    → 0 < n
    → HasInstrs rest
    → walk (suc (n + total rest)) (new ((f, n) ∷ (g, l) ∷ rest) skip)
      ≡ (places g 0 n ++ all_places skip rest, true)
unfolding new handle_skips
walk-new_skipped f n g l rest skip skipped kept some_instr has =
    let meta = (f, n) ∷ (g, l) ∷ rest in
    let at : skips_from (suc (suc (length rest))) skip meta 0 ≡ 1 =
      skips_pass (suc (length rest)) skip meta 0 skipped (omega arith)
      ∙ skips_stop (length rest) skip meta 1 kept in
    let size : suc (n - 1) ≡ n = omega arith in
    let ih =
      walk-cursor (suc (n + total rest)) skip ((f, n) ∷ []) g l n rest 0 (n - 1) (omega arith) has
        (omega arith) in
    rw (at, ih, size) refl
