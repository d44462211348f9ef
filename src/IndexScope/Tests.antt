-- ===== src/IndexScope/Tests.antt =====
-- The theorems at a pass over three items of two spaces.
use wirm.Base.{ℕ, ◌+◌, ◌≡◌, ◌≢◌, refl, Option, List, [], ◌∷◌}
use wirm.Base.Results.{ok}
use wirm.Space.{Space, ComponentSection}
use wirm.IdxSpace.{subtype_of}
use wirm.IndexScope.{IndexScope, new, assign_for, index_from}
use wirm.IndexScope.Laws.{space_at, IsValidScope}
use wirm.IndexScope.Found.{count, new-IsValidScope, assign_for-IsValidScope, index_from-assign_for}

abbrev items : List (Space × ComponentSection)
items =
    (Space.comp_func, ComponentSection.component_import)
    ∷ (Space.core_func, ComponentSection.canon)
    ∷ (Space.comp_func, ComponentSection.canon)
    ∷ []

func_ne_na : Space.comp_func ≢ Space.na
func_ne_na e = cc

assign_for-IsValidScope_example : IsValidScope (assign_for (new 0) 0 items)
assign_for-IsValidScope_example = assign_for-IsValidScope (new 0) 0 items (new-IsValidScope 0)

index_from-assign_for_example :
    (o : Option ℕ) × (s' : IndexScope) × (index_from (assign_for (new 0) 0 items) (record {
      depth = 0;
      space = Space.comp_func;
      index = (space_at (new 0) Space.comp_func).current_id + count Space.comp_func 2 items;
    })
      ≡ ok ((subtype_of ComponentSection.canon, (0 + 2, o)), s'))
index_from-assign_for_example =
    index_from-assign_for (new 0) 0 items 2 0 Space.comp_func ComponentSection.canon
      (new-IsValidScope 0) func_ne_na refl
