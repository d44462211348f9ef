-- ===== src/SubIterator/Tests.antt =====
-- Runs of the cursors of subiterator/ on small metadata.
use wirm.Base.{ℕ, ◌≡◌, refl, true, false, List, [], ◌∷◌, ◌++◌, arith}
use wirm.Base.Maps.{HashMap, get}
use wirm.Base.Results.{ok, ◌>>=◌}
use wirm.SubIterator.{ModuleSubIterator, contains, new, reset, next}
use wirm.SubIterator.Component as Component
use wirm.SubIterator.Walk.{walk, places, all_places, drop_skipped, total}
use wirm.SubIterator.Laws.{cursor}
use wirm.SubIterator.Reset.{walk-reset, walk-new_skipped}
use wirm.SubIterator.Steps.{all_in, steps_in, on}
use wirm.SubIterator.Modules.{walk-new_component, next-all_skipped}

-- Functions 3, 4 and 5 of two, one and two operators; the second is skipped.
abbrev functions : List (ℕ × ℕ)
functions = (3, 2) ∷ (4, 1) ∷ (5, 2) ∷ []

abbrev somewhere : ModuleSubIterator
somewhere = record {
  curr_idx = 2;
  metadata = functions;
  func_iterator = record { curr_instr = 1; num_instr = 2 };
  skip_funcs = 4 ∷ [];
}

reset_run : (walk 9 (reset somewhere)).0 ≡ (3, 0) ∷ (3, 1) ∷ (5, 0) ∷ (5, 1) ∷ []
unfolding walk reset
reset_run = refl

new_skipped_run : (walk 9 (new functions (3 ∷ []))).0 ≡ (4, 0) ∷ (4, 1) ∷ (5, 0) ∷ (5, 1) ∷ []
unfolding walk new
new_skipped_run = refl

abbrev two_modules : HashMap (List (ℕ × ℕ))
two_modules = (0, functions) ∷ (1, (7, 1) ∷ []) ∷ []

abbrev skips : HashMap (List ℕ)
skips = (0, 4 ∷ []) ∷ []

component_run :
    (Component.new 0 2 two_modules skips >>= Component.walk 9)
    ≡ ok ((0, (3, 0)) ∷ (0, (3, 1)) ∷ (0, (5, 0)) ∷ (0, (5, 1)) ∷ (1, (7, 0)) ∷ [], true)
unfolding Component.walk Component.new next
component_run = refl

-- The last function of the first module is skipped: the second module is not met.
stopped_run :
    (Component.new 0 2 two_modules ((0, 5 ∷ []) ∷ []) >>= Component.walk 9)
    ≡ ok ((0, (3, 0)) ∷ (0, (3, 1)) ∷ (0, (4, 0)) ∷ [], true)
unfolding Component.walk Component.new next
stopped_run = refl

walk-reset_example : walk 6 (reset somewhere) ≡ (all_places (4 ∷ []) functions, true)
unfolding total
walk-reset_example = walk-reset somewhere (omega arith)

walk-new_skipped_example :
    walk 6 (new ((3, 2) ∷ (4, 1) ∷ (5, 3) ∷ []) (3 ∷ []))
    ≡ (places 4 0 2 ++ all_places (3 ∷ []) ((5, 3) ∷ []), true)
unfolding total contains
walk-new_skipped_example =
    walk-new_skipped 3 2 4 1 ((5, 3) ∷ []) (3 ∷ []) refl refl (omega arith) (omega arith)

walk-new_component_example :
    (Component.new 0 2 two_modules skips
      >>= Component.walk (steps_in ((functions, 4 ∷ []) ∷ ((7, 1) ∷ [], []) ∷ [])))
    ≡ ok (all_in 0 ((functions, 4 ∷ []) ∷ ((7, 1) ∷ [], []) ∷ []), true)
unfolding contains get Component.skip_of
walk-new_component_example =
    walk-new_component two_modules skips functions (4 ∷ []) (((7, 1) ∷ [], []) ∷ []) (
      refl,
      refl,
      (omega arith, (omega arith, (omega arith, tt))),
      refl,
      refl,
      (refl, refl, (omega arith, tt), refl, refl, tt),
    )

next-all_skipped_example :
    (it : Component.ComponentSubIterator) × (Component.next
        (on 2 two_modules skips 0 (cursor (5 ∷ []) [] 4 1 1 ((5, 2) ∷ []) 0))
      ≡ ok (it, false))
    × (it.curr_mod ≡ 0)
unfolding drop_skipped contains
next-all_skipped_example =
    next-all_skipped 2 two_modules skips 0 (5 ∷ []) [] 4 1 1 (5, 2) [] 0 (omega arith) refl
