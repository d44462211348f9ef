-- ===== src/SubIterator/Laws.antt =====
-- `next` of subiterator/module_subiterator.rs: a cursor that stands on an operator meets every
-- operator that is left, in order, and then `next` is false.
use wirm.Base.{
  ℕ, zero, suc, ◌+◌, ◌-◌, ◌≡◌, ◌≤◌, ◌<◌, refl, ap, ◌∙◌, ◌⊎◌, true, false, List, [], ◌∷◌, ◌++◌,
  arith, length, length-append, Bool-cases, inl, inr, ltb, lt→ltb, All,
}
use mathlib.Core.List.{append-nil}
use wirm.SubIterator.{
  ModuleSubIterator, FuncSubIterator, contains, curr_loc, next, handle_skips, enter_function,
  next_function, next_in_function, next_instr,
}
use wirm.SubIterator.Walk.{places, all_places, drop_skipped, total, here, go_on, walk}
use wirm.SubIterator.Skips.{func_at-append, all_places-drop_skipped, skips_over}

-- A cursor on operator `k` of function `f`, with `pre` behind it. It takes the function to have `n`
-- operators, where the metadata counts `c`.
abbrev pub cursor : List ℕ → List (ℕ × ℕ) → ℕ → ℕ → ℕ → List (ℕ × ℕ) → ℕ → ModuleSubIterator
cursor skip pre f c n rest k = record {
  curr_idx = length pre;
  metadata = pre ++ (f, c) ∷ rest;
  func_iterator = record { curr_instr = k; num_instr = n };
  skip_funcs = skip;
}

-- Every function has an operator, as its `end`.
abbrev pub HasInstrs : List (ℕ × ℕ) → Type 0
HasInstrs meta = All (λ m. 0 < m.1) meta

-- The first function that is left is visited, and the others after it.
pub entered_places :
    (skip : List ℕ) (meta : List (ℕ × ℕ)) (g l : ℕ) (rest : List (ℕ × ℕ))
    → drop_skipped skip meta ≡ (g, l) ∷ rest
    → HasInstrs meta
    → (0 < l)
      × HasInstrs rest
      × (l + total rest ≤ total meta)
      × (all_places skip meta ≡ places g 0 l ++ all_places skip rest)
unfolding drop_skipped total all_places
entered_places skip [] g l rest e h = cc
entered_places skip ((f, n) ∷ meta) g l rest e h = elim (Bool-cases (contains skip f)) [
  | inl t ↦
      let (a, b, c, d) = entered_places skip meta g l rest (rw t at e) h.1 in
      (a, b, omega (arith, c), rw t d)
  | inr u ↦
      let same : (f, n) ∷ meta ≡ (g, l) ∷ rest = rw u at e in
      let fg : f ≡ g = cc in
      let nl : n ≡ l = cc in
      let tail : meta ≡ rest = cc in rw (u, ← fg, ← nl, ← tail) (h.0, h.1, omega arith, refl)
]

pub all_places-nil : (skip : List ℕ) → all_places skip [] ≡ []
unfolding all_places
all_places-nil skip = refl

pub all_places-kept :
    (skip : List ℕ) (f n : ℕ) (rest : List (ℕ × ℕ))
    → contains skip f ≡ false
    → all_places skip ((f, n) ∷ rest) ≡ places f 0 n ++ all_places skip rest
unfolding all_places
all_places-kept skip f n rest kept = rw kept refl

pub places-suc : (f k d : ℕ) → places f k (suc d) ≡ (f, k) ∷ places f (suc k) d
unfolding places
places-suc f k d = refl

pub places-one : (f k : ℕ) → places f k 1 ≡ (f, k) ∷ []
unfolding places
places-one f k = refl

pub List-cases :
    (l : List (ℕ × ℕ))
    → (l ≡ []) ⊎ ((f : ℕ) × (n : ℕ) × (rest : List (ℕ × ℕ)) × (l ≡ (f, n) ∷ rest))
List-cases [] = inl refl
List-cases ((f, n) ∷ rest) = inr (f, n, rest, refl)

enter_past :
    (it : ModuleSubIterator) → length it.metadata ≤ it.curr_idx → (enter_function it).1 ≡ false
unfolding enter_function
enter_past it h = ground arith

enter_cursor :
    (skip : List ℕ) (pre : List (ℕ × ℕ)) (f n : ℕ) (rest : List (ℕ × ℕ)) (it : FuncSubIterator)
    → enter_function (record (cursor skip pre f n n rest 0) { func_iterator = it })
      ≡ (cursor skip pre f n n rest 0, true)
unfolding enter_function
enter_cursor skip pre f n rest it =
    let inside : ltb (length pre) (length (pre ++ (f, n) ∷ rest)) ≡ true =
      lt→ltb _ _ (omega (arith, length-append pre ((f, n) ∷ rest))) in
    rw (inside, func_at-append pre (f, n) rest) refl

module _ (skip : List ℕ) (pre : List (ℕ × ℕ)) (f c n : ℕ) where
  here-cursor : (rest : List (ℕ × ℕ)) (k : ℕ) → here (cursor skip pre f c n rest k) ≡ (f, k) ∷ []
  unfolding here curr_loc
  here-cursor rest k =
      let inside : ltb (length pre) (length (pre ++ (f, c) ∷ rest)) ≡ true =
        lt→ltb _ _ (omega (arith, length-append pre ((f, c) ∷ rest))) in
      rw (inside, func_at-append pre (f, c) rest) refl

  pub next_inside :
      (rest : List (ℕ × ℕ)) (k : ℕ)
      → k + 1 < n
      → next (cursor skip pre f c n rest k) ≡ (cursor skip pre f c n rest (suc k), true)
  unfolding next next_in_function next_instr
  next_inside rest k h = let one : k + 1 ≡ suc k = omega arith in rw (lt→ltb (k + 1) n h, one) refl

  next_done :
      (k : ℕ) → n ≤ k + 1 → next (cursor skip pre f c n [] k) ≡ (cursor skip pre f c n [] k, false)
  unfolding next next_function
  next_done k h =
      let last : ltb (k + 1) n ≡ false = ground arith in
      let over : ltb (length pre + 1) (length (pre ++ (f, c) ∷ [])) ≡ false =
        ground (arith, length-append pre ((f, c) ∷ [])) in
      rw (last, over) refl

  module _ (m : ℕ × ℕ) (rest : List (ℕ × ℕ)) (k : ℕ) (h : n ≤ k + 1) where
    -- What `next` makes of the last operator of a function that is not the last one.
    next_over :
        next (cursor skip pre f c n (m ∷ rest) k)
        ≡ enter_function (
            handle_skips
              (record (cursor skip pre f c n (m ∷ rest) k) { curr_idx = suc (length pre) }))
    unfolding next next_function
    next_over =
        let last : ltb (k + 1) n ≡ false = ground arith in
        let over : ltb (length pre + 1) (length (pre ++ (f, c) ∷ m ∷ rest)) ≡ true =
          lt→ltb _ _ (omega (arith, length-append pre ((f, c) ∷ m ∷ rest))) in
        rw (last, over) refl

    pub next_skipped :
        drop_skipped skip (m ∷ rest) ≡ [] → (next (cursor skip pre f c n (m ∷ rest) k)).1 ≡ false
    unfolding handle_skips
    next_skipped none_left =
        let (passed, e, stop) = skips_over skip pre (f, c) m rest in
        let all : pre ++ (f, c) ∷ m ∷ rest ≡ passed = rw (e, none_left) (append-nil passed) in
        rw next_over
          (enter_past _ (rw stop (omega (arith, ap (λ (l : List (ℕ × ℕ)). length l) all))))

    pub next_entered :
        (g l : ℕ) (rest' : List (ℕ × ℕ))
        → drop_skipped skip (m ∷ rest) ≡ (g, l) ∷ rest'
        → (passed : List (ℕ × ℕ)) × (next (cursor skip pre f c n (m ∷ rest) k)
            ≡ (cursor skip passed g l l rest' 0, true))
    unfolding handle_skips
    next_entered g l rest' left =
        let (passed, e, stop) = skips_over skip pre (f, c) m rest in
        let meta : pre ++ (f, c) ∷ m ∷ rest ≡ passed ++ (g, l) ∷ rest' = rw (← left) e in
        (passed, next_over ∙ rw (stop, meta) (enter_cursor skip passed g l rest' _))

-- From operator `k` of a function, with `d` operators after it, the walk meets these and then
-- every operator of the functions to come that are not skipped, and ends.
pub walk-cursor :
    (fuel : ℕ) (skip : List ℕ) (pre : List (ℕ × ℕ)) (f c n : ℕ) (rest : List (ℕ × ℕ)) (k d : ℕ)
    → n ≡ k + suc d
    → HasInstrs rest
    → suc d + total rest ≤ fuel
    → walk fuel (cursor skip pre f c n rest k) ≡ (places f k (suc d) ++ all_places skip rest, true)
unfolding walk go_on
walk-cursor zero skip pre f c n rest k d e has h = absurd (omega arith)
walk-cursor (suc fuel) skip pre f c n rest k (suc d) e has h =
    let ih = walk-cursor fuel skip pre f c n rest (suc k) d (omega arith) has (omega arith) in
    rw
      (
        next_inside skip pre f c n rest k (omega arith),
        here-cursor skip pre f c n rest k,
        ih,
        places-suc f k (suc d),
      )
      refl
walk-cursor (suc fuel) skip pre f c n [] k zero e has h =
    rw
      (
        next_done skip pre f c n k (omega arith),
        here-cursor skip pre f c n [] k,
        all_places-nil skip,
        places-one f k,
      )
      refl
walk-cursor (suc fuel) skip pre f c n (m ∷ rest) k zero e has h =
    elim (List-cases (drop_skipped skip (m ∷ rest))) [
      | inl none_left ↦
          rw
            (
              next_skipped skip pre f c n m rest k (omega arith) none_left,
              here-cursor skip pre f c n (m ∷ rest) k,
              ← all_places-drop_skipped skip (m ∷ rest),
              none_left,
              all_places-nil skip,
              places-one f k,
            )
            refl
      | inr (g, l, rest', left) ↦
          let (some_instr, has', fits, met) = entered_places skip (m ∷ rest) g l rest' left has in
          let (passed, step) = next_entered skip pre f c n m rest k (omega arith) g l rest' left in
          let size : suc (l - 1) ≡ l = omega arith in
          let ih =
            walk-cursor fuel skip passed g l l rest' 0 (l - 1) (omega arith) has' (omega arith) in
          rw (step, here-cursor skip pre f c n (m ∷ rest) k, ih, met, size, places-one f k) refl
    ]
