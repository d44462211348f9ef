-- ===== src/SubIterator/Walk.antt =====
-- The places that a walk by `next` visits, and the places that it should visit: every operator of
-- every function that is not skipped, in order. `next` of subiterator/module_subiterator.rs.
use wirm.Base.{ℕ, zero, suc, ◌+◌, Bool, true, false, List, [], ◌∷◌, ◌++◌, if◌then◌else◌}
use wirm.SubIterator.{ModuleSubIterator, contains, has_curr, curr_loc, next}

-- The operators of function `f` from position `k` on, `n` of them.
unfoldable pub places : ℕ → ℕ → ℕ → List (ℕ × ℕ)
places f k zero = []
places f k (suc n) = (f, k) ∷ places f (suc k) n

-- The functions of the metadata that are visited.
unfoldable pub all_places : List ℕ → List (ℕ × ℕ) → List (ℕ × ℕ)
unfolding places
all_places skip [] = []
all_places skip ((f, n) ∷ rest) =
    if contains skip f then all_places skip rest else places f 0 n ++ all_places skip rest

-- The metadata after the skipped functions at its front.
unfoldable pub drop_skipped : List ℕ → List (ℕ × ℕ) → List (ℕ × ℕ)
drop_skipped skip [] = []
drop_skipped skip ((f, n) ∷ rest) =
    if contains skip f then drop_skipped skip rest else (f, n) ∷ rest

-- How many operators the metadata counts.
unfoldable pub total : List (ℕ × ℕ) → ℕ
total [] = 0
total ((f, n) ∷ rest) = n + total rest

-- Where the cursor stands, if it stands on a function.
unfoldable pub here : ModuleSubIterator → List (ℕ × ℕ)
unfolding curr_loc
here it = if has_curr it then (curr_loc it).0 ∷ [] else []

-- One step of the walk: what follows counts only if the cursor moved.
unfoldable pub go_on : Bool → List (ℕ × ℕ) → List (ℕ × ℕ) × Bool → List (ℕ × ℕ) × Bool
go_on true met (later, done) = (met ++ later, done)
go_on false met more = (met, true)

-- The places met by `next` until it returns false, and whether it did within the fuel.
unfoldable pub walk : ℕ → ModuleSubIterator → List (ℕ × ℕ) × Bool
unfolding here next go_on
walk zero it = ([], false)
walk (suc fuel) it = go_on (next it).1 (here it) (walk fuel (next it).0)
