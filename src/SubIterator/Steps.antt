-- ===== src/SubIterator/Steps.antt =====
-- One `next` of subiterator/component_subiterator.rs, and the components whose modules each begin and
-- end with a function that is not skipped, or have none.
use wirm.Base.{
  ℕ, suc, ◌+◌, ◌≡◌, ◌≤◌, ◌<◌, refl, true, false, some, List, [], ◌∷◌, ◌++◌, map, arith, length,
  length-append, inl, inr, ltb, lt→ltb, ◌==◌, Bool-cases,
}
use wirm.Base.Maps.{HashMap, get}
use wirm.Base.Results.{ok}
use wirm.SubIterator.{ModuleSubIterator, contains}
use wirm.SubIterator as Module
use wirm.SubIterator.Walk.{all_places, drop_skipped, total}
use wirm.SubIterator.Skips.{func_at-append}
use wirm.SubIterator.Laws.{cursor, HasInstrs, next_inside, next_entered}
use wirm.SubIterator.Component.{ComponentSubIterator, next, here, skip_of, enter_module}

-- The modules from `i` on, each by its functions and those that are skipped.
abbrev pub Modules : Type 0
Modules = List (List (ℕ × ℕ) × List ℕ)

-- Every operator of every function of theirs that is not skipped.
unfoldable pub all_in : ℕ → Modules → List (ℕ × (ℕ × ℕ))
all_in i [] = []
all_in i ((meta, skip) ∷ ms) = map (λ p. (i, p)) (all_places skip meta) ++ all_in (suc i) ms

-- The steps that a walk of them takes at most.
unfoldable pub steps_in : Modules → ℕ
steps_in [] = 0
steps_in ((meta, skip) ∷ ms) = suc (total meta) + steps_in ms

abbrev pub LastKept : List ℕ → List (ℕ × ℕ) → Type 0
LastKept skip [] = Unit
LastKept skip ((f, n) ∷ []) = contains skip f ≡ false
LastKept skip (m ∷ m' ∷ rest) = LastKept skip (m' ∷ rest)

abbrev pub FirstKept : List ℕ → List (ℕ × ℕ) → Type 0
FirstKept skip [] = Unit
FirstKept skip ((f, n) ∷ rest) = contains skip f ≡ false

-- The maps hold these modules, and each can be walked.
abbrev pub Holds : HashMap (List (ℕ × ℕ)) → HashMap (List ℕ) → ℕ → Modules → Type 0
Holds metadata skips i [] = Unit
Holds metadata skips i ((meta, skip) ∷ ms) =
    (get i metadata ≡ some meta)
    × (skip_of skips i ≡ skip)
    × HasInstrs meta
    × FirstKept skip meta
    × LastKept skip meta
    × Holds metadata skips (suc i) ms

pub LastKept-drop_skipped :
    (skip : List ℕ) (m : ℕ × ℕ) (rest : List (ℕ × ℕ))
    → LastKept skip (m ∷ rest)
    → (g : ℕ) × (l : ℕ) × (rest' : List (ℕ × ℕ)) × (drop_skipped skip (m ∷ rest) ≡ (g, l) ∷ rest')
      × LastKept skip ((g, l) ∷ rest')
unfolding drop_skipped
LastKept-drop_skipped skip (f, n) [] h = (f, n, [], rw h refl, h)
LastKept-drop_skipped skip (f, n) (m ∷ rest) h = elim (Bool-cases (contains skip f)) [
  | inl t ↦
      let (g, l, rest', e, last) = LastKept-drop_skipped skip m rest h in
      (g, l, rest', rw t e, last)
  | inr u ↦ (f, n, m ∷ rest, rw u refl, h)
]

pub LastKept-tail :
    (skip : List ℕ) (m : ℕ × ℕ) (rest : List (ℕ × ℕ))
    → LastKept skip (m ∷ rest)
    → LastKept skip rest
LastKept-tail skip m [] h = tt
LastKept-tail skip m (m' ∷ rest) h = h

module _ (num : ℕ) (metadata : HashMap (List (ℕ × ℕ))) (skips : HashMap (List ℕ)) where
  abbrev pub on : ℕ → ModuleSubIterator → ComponentSubIterator
  on i it = record {
    curr_mod = i;
    num_mods = num;
    mod_iterator = it;
    metadata = metadata;
    skip_funcs = skips;
  }

  module _ (i : ℕ) (skip : List ℕ) (pre : List (ℕ × ℕ)) (f c n : ℕ) where
    pub here-on :
        (rest : List (ℕ × ℕ)) (k : ℕ)
        → i < num
        → here (on i (cursor skip pre f c n rest k)) ≡ (i, (f, k)) ∷ []
    unfolding here
    here-on rest k h =
        let going : (i == num) ≡ false = ground arith in
        let inside : ltb (length pre) (length (pre ++ (f, c) ∷ rest)) ≡ true =
          lt→ltb _ _ (omega (arith, length-append pre ((f, c) ∷ rest))) in
        rw (going, inside, func_at-append pre (f, c) rest) refl

    pub on_inside :
        (rest : List (ℕ × ℕ)) (k : ℕ)
        → k + 1 < n
        → next (on i (cursor skip pre f c n rest k))
          ≡ ok (on i (cursor skip pre f c n rest (suc k)), true)
    unfolding next
    on_inside rest k h = rw (lt→ltb (k + 1) n h, next_inside skip pre f c n rest k h) refl

    pub on_entered :
        (m : ℕ × ℕ) (rest : List (ℕ × ℕ)) (k g l : ℕ) (rest' : List (ℕ × ℕ))
        → n ≤ k + 1
        → drop_skipped skip (m ∷ rest) ≡ (g, l) ∷ rest'
        → (passed : List (ℕ × ℕ)) × (next (on i (cursor skip pre f c n (m ∷ rest) k))
            ≡ ok (on i (cursor skip passed g l l rest' 0), true))
    unfolding next
    on_entered m rest k g l rest' h left =
        let (passed, step) = next_entered skip pre f c n m rest k h g l rest' left in
        let last : ltb (k + 1) n ≡ false = ground arith in
        let over : ltb (length pre + 1) (length (pre ++ (f, c) ∷ m ∷ rest)) ≡ true =
          lt→ltb _ _ (omega (arith, length-append pre ((f, c) ∷ m ∷ rest))) in
        (passed, rw (last, over, step) refl)

    pub on_last :
        (k : ℕ)
        → n ≤ k + 1
        → next (on i (cursor skip pre f c n [] k))
          ≡ enter_module (on (suc i) (cursor skip pre f c n [] k))
    unfolding next
    on_last k h =
        let last : ltb (k + 1) n ≡ false = ground arith in
        let over : ltb (length pre + 1) (length (pre ++ (f, c) ∷ [])) ≡ false =
          ground (arith, length-append pre ((f, c) ∷ [])) in
        rw (last, over) refl

  -- After the last module there is none to enter; otherwise the next one is entered.
  pub enter_none :
      (i : ℕ) (it : ModuleSubIterator) → num ≤ i → enter_module (on i it) ≡ ok (on i it, false)
  unfolding enter_module
  enter_none i it h = let past : ltb i num ≡ false = ground arith in rw past refl

  pub enter_next :
      (i : ℕ) (it : ModuleSubIterator) (meta : List (ℕ × ℕ)) (skip : List ℕ)
      → i < num
      → get i metadata ≡ some meta
      → skip_of skips i ≡ skip
      → enter_module (on i it) ≡ ok (on i (Module.new meta skip), true)
  unfolding enter_module
  enter_next i it meta skip h found skipped = rw (lt→ltb i num h, found, skipped) refl
