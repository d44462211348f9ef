-- ===== src/Reorder/Tests.antt =====
-- Runs of the reordering, and the theorems at a small list of items.
use wirm.Base.{
  ℕ, ◌<◌, ◌≡◌, refl, ◌↔◌, Bool, true, false, some, List, [], ◌∷◌, ◌++◌, arith, length, keep,
  get_elem?,
}
use wirm.Base.Maps.{get}
use wirm.Reorder.{Item, reorganize, recalculate_ids}
use wirm.Reorder.Order.{is_live_import, is_live_local, reorganize_lem}
use wirm.Reorder.Mapping.{HasDistinctIds, recalculate_ids-exact, recalculate_ids-live}

-- An ID, whether the item is imported, and whether it is deleted.
abbrev Entry : Type 0
Entry = ℕ × Bool × Bool

instance abbrev entry_Item : Item Entry
entry_Item = record { get_id = λ e. e.0; is_import = λ e. e.1; is_deleted = λ e. e.2 }

abbrev entries : List Entry
entries = (0, false, false) ∷ (1, true, true) ∷ (2, true, false) ∷ []

entries_distinct : HasDistinctIds entries
entries_distinct = ground arith

reorganized : reorganize entries ≡ (2, true, false) ∷ (0, false, false) ∷ []
unfolding reorganize
reorganized = refl

reorganize_lem_example :
    reorganize entries ≡ keep is_live_import entries ++ keep is_live_local entries
reorganize_lem_example = reorganize_lem entries

recalculate_ids-exact_example :
    (get 2 (recalculate_ids entries).1 ≡ some 0)
    ↔ ((x : Entry) × (get_elem? (recalculate_ids entries).0 0 ≡ some x) × (x.0 ≡ 2))
recalculate_ids-exact_example = recalculate_ids-exact entries 2 0 entries_distinct

recalculate_ids-live_example :
    (j : ℕ) × (get 0 (recalculate_ids entries).1 ≡ some j)
    × (get_elem? (recalculate_ids entries).0 j ≡ some (0, false, false))
    × ((j < length (keep is_live_import entries)) ↔ (false ≡ true))
recalculate_ids-live_example =
    recalculate_ids-live entries 0 (0, false, false) entries_distinct refl refl
