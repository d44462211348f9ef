-- ===== src/SubIterator/Modules.antt =====
-- `next` of subiterator/component_subiterator.rs over a component whose modules each begin and end
-- with a function that is not skipped, or have none.
use wirm.Base.{
  ℕ, zero, suc, ◌+◌, ◌-◌, ◌≡◌, ◌≤◌, ◌<◌, refl, true, false, List, [], ◌∷◌, ◌++◌, map, arith, length,
  length-append, ltb, lt→ltb, ◌==◌,
}
use mathlib.Core.List.{append-nil}
use wirm.Base.Maps.{HashMap}
use wirm.Base.Results.{ok, ◌>>=◌}
use wirm.SubIterator.{ModuleSubIterator, contains}
use wirm.SubIterator as Module
use wirm.SubIterator.Walk.{places, all_places, drop_skipped, total}
use wirm.SubIterator.Laws.{
  cursor, HasInstrs, entered_places, all_places-nil, all_places-kept, places-suc, places-one,
  next_skipped,
}
use wirm.SubIterator.Reset.{new-cursor}
use wirm.SubIterator.Component.{ComponentSubIterator, new, next, here, enter_module, go_on, walk}
use wirm.SubIterator.Steps.{
  Modules, all_in, steps_in, LastKept, Holds, LastKept-drop_skipped, LastKept-tail, on, here-on,
  on_inside, on_entered, on_last, enter_none, enter_next,
}

module _ (num : ℕ) (metadata : HashMap (List (ℕ × ℕ))) (skips : HashMap (List ℕ)) where
  -- Within the fuel, a walk from a cursor in module `i`, with the modules `ms` after it.
  abbrev CursorWalk : ℕ → Type 0
  CursorWalk fuel =
      (i : ℕ) (ms : Modules) (skip : List ℕ) (pre : List (ℕ × ℕ)) (f c n : ℕ) (rest : List (ℕ × ℕ))
      (k d : ℕ)
      → n ≡ k + suc d
      → HasInstrs rest
      → LastKept skip rest
      → Holds metadata skips (suc i) ms
      → suc i + length ms ≡ num
      → suc d + total rest + steps_in ms ≤ fuel
      → walk fuel (on num metadata skips i (cursor skip pre f c n rest k))
        ≡ ok (
          map (λ p. (i, p)) (places f k (suc d) ++ all_places skip rest) ++ all_in (suc i) ms,
          true,
        )

  -- The same from a module that has just been entered.
  abbrev FreshWalk : ℕ → Type 0
  FreshWalk fuel =
      (i : ℕ) (ms : Modules) (meta : List (ℕ × ℕ)) (skip : List ℕ)
      → Holds metadata skips i ((meta, skip) ∷ ms)
      → suc i + length ms ≡ num
      → steps_in ((meta, skip) ∷ ms) ≤ fuel
      → walk fuel (on num metadata skips i (Module.new meta skip))
        ≡ ok (all_in i ((meta, skip) ∷ ms), true)

  -- The walk goes on in the modules after `i`.
  enter_walk :
      (fuel : ℕ)
      → FreshWalk fuel
      → (i : ℕ) (ms : Modules) (it : ModuleSubIterator) (met : List (ℕ × (ℕ × ℕ)))
      → Holds metadata skips (suc i) ms
      → suc i + length ms ≡ num
      → steps_in ms ≤ fuel
      → (enter_module (on num metadata skips (suc i) it) >>= λ r. go_on r.1 met (walk fuel r.0))
        ≡ ok (met ++ all_in (suc i) ms, true)
  unfolding go_on all_in
  enter_walk fuel ih i [] it met holds size h =
      rw (enter_none num metadata skips (suc i) it (omega arith), append-nil met) refl
  enter_walk fuel ih i ((meta, skip) ∷ ms) it met holds size h =
      rw
        (
          enter_next num metadata skips (suc i) it meta skip (omega arith) holds.0 holds.1,
          ih (suc i) ms meta skip holds (omega arith) h,
        )
        refl

  cursor_step : (fuel : ℕ) → CursorWalk fuel → FreshWalk fuel → CursorWalk (suc fuel)
  unfolding walk
  cursor_step fuel ih fresh i ms skip pre f c n rest k (suc d) e has kept holds size h =
      let more =
        ih i ms skip pre f c n rest (suc k) d (omega arith) has kept holds size (omega arith) in
      rw
        (
          on_inside num metadata skips i skip pre f c n rest k (omega arith),
          here-on num metadata skips i skip pre f c n rest k (omega arith),
          more,
          places-suc f k (suc d),
        )
        refl
  cursor_step fuel ih fresh i ms skip pre f c n [] k zero e has kept holds size h =
      rw
        (
          on_last num metadata skips i skip pre f c n k (omega arith),
          here-on num metadata skips i skip pre f c n [] k (omega arith),
          all_places-nil skip,
          places-one f k,
        )
        (enter_walk fuel fresh i ms (cursor skip pre f c n [] k) ((i, (f, k)) ∷ []) holds size
          (omega arith))
  cursor_step fuel ih fresh i ms skip pre f c n (m ∷ rest) k zero e has kept holds size h =
      let (g, l, rest', left, kept') = LastKept-drop_skipped skip m rest kept in
      let (some_instr, has', fits, met) = entered_places skip (m ∷ rest) g l rest' left has in
      let (passed, step) =
        on_entered num metadata skips i skip pre f c n m rest k g l rest' (omega arith) left in
      let count : suc (l - 1) ≡ l = omega arith in
      let more =
        ih i ms skip passed g l l rest' 0 (l - 1) (omega arith) has'
          (LastKept-tail skip (g, l) rest' kept') holds size (omega arith) in
      rw
        (
          step,
          here-on num metadata skips i skip pre f c n (m ∷ rest) k (omega arith),
          more,
          met,
          count,
          places-one f k,
        )
        refl

  -- A module with no functions is left by the next step, and nothing is met in it.
  fresh_empty :
      (fuel i : ℕ) (skip : List ℕ)
      → i < num
      → walk (suc fuel) (on num metadata skips i (Module.new [] skip)) ≡ (
          enter_module (on num metadata skips (suc i) (Module.new [] skip)) >>= λ r.
          go_on r.1 [] (walk fuel r.0))
  unfolding walk next here Module.new
  fresh_empty fuel i skip h = let going : (i == num) ≡ false = ground arith in rw going refl

  fresh_step : (fuel : ℕ) → CursorWalk (suc fuel) → FreshWalk fuel → FreshWalk (suc fuel)
  unfolding all_in steps_in total
  fresh_step fuel walked fresh i ms [] skip holds size h =
      rw (fresh_empty fuel i skip (omega arith), all_places-nil skip)
        (enter_walk fuel fresh i ms (Module.new [] skip) [] holds.5 size (omega arith))
  fresh_step fuel walked fresh i ms ((f, n) ∷ rest) skip holds size h =
      let (found, skipped, has, first, last, later) = holds in
      let count : suc (n - 1) ≡ n = omega (arith, has.0) in
      let more =
        walked i ms skip [] f n n rest 0 (n - 1) (omega (arith, has.0)) has.1
          (LastKept-tail skip (f, n) rest last) later size (omega (arith, has.0)) in
      rw (new-cursor f n rest skip first, more, count, all_places-kept skip f n rest first) refl

  both : (fuel : ℕ) → CursorWalk fuel × FreshWalk fuel
  unfolding steps_in
  both zero = (
    λ i ms skip pre f c n rest k d e has kept holds size h. absurd (omega arith),
    λ i ms meta skip holds size h. absurd (omega arith),
  )
  both (suc fuel) =
      let walked = cursor_step fuel (both fuel).0 (both fuel).1 in
      (walked, fresh_step fuel walked (both fuel).1)

-- From a new cursor on module 0 of a component, `next` meets every operator of every function
-- that is not skipped, of every module, in order and once each, and then is false, if the maps
-- hold every module, every function has an operator, and neither the first nor the last function
-- of a module is skipped. Modules with no functions are passed.
pub walk-new_component :
    (metadata : HashMap (List (ℕ × ℕ))) (skips : HashMap (List ℕ)) (meta : List (ℕ × ℕ))
    (skip : List ℕ) (ms : Modules)
    → Holds metadata skips 0 ((meta, skip) ∷ ms)
    → (new 0 (suc (length ms)) metadata skips >>= walk (steps_in ((meta, skip) ∷ ms)))
      ≡ ok (all_in 0 ((meta, skip) ∷ ms), true)
unfolding new
walk-new_component metadata skips meta skip ms holds =
    let modules : (suc (length ms) == 0) ≡ false = ground arith in
    rw (modules, holds.0, holds.1)
      ((both (suc (length ms)) metadata skips (steps_in ((meta, skip) ∷ ms))).1 0 ms meta skip holds
        (omega arith) (omega arith))

-- On the last operator of a function, where there are functions after it and all of them are
-- skipped, `next` is false and the cursor stays in its module, whichever modules follow.
pub next-all_skipped :
    (num : ℕ) (metadata : HashMap (List (ℕ × ℕ))) (skips : HashMap (List ℕ)) (i : ℕ) (skip : List ℕ)
    (pre : List (ℕ × ℕ)) (f c n : ℕ) (m : ℕ × ℕ) (rest : List (ℕ × ℕ)) (k : ℕ)
    → n ≤ k + 1
    → drop_skipped skip (m ∷ rest) ≡ []
    → (it : ComponentSubIterator) × (next
          (on num metadata skips i (cursor skip pre f c n (m ∷ rest) k))
        ≡ ok (it, false))
      × (it.curr_mod ≡ i)
unfolding next
next-all_skipped num metadata skips i skip pre f c n m rest k h none_left =
    let last : ltb (k + 1) n ≡ false = ground arith in
    let over : ltb (length pre + 1) (length (pre ++ (f, c) ∷ m ∷ rest)) ≡ true =
      lt→ltb _ _ (omega (arith, length-append pre ((f, c) ∷ m ∷ rest))) in
    let stop = next_skipped skip pre f c n m rest k h none_left in
    (
      on num metadata skips i (Module.next (cursor skip pre f c n (m ∷ rest) k)).0,
      rw (last, over, stop) refl,
      refl,
    )
