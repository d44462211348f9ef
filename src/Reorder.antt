-- ===== src/Reorder.antt =====
-- ir/module/mod.rs, `reorganize`, `get_mapping_generic` and `recalculate_ids`: the items of an
-- index space (functions, globals, memories) are put in the order that the binary format wants,
-- imports first, and each old ID is mapped to its new one.
pub mod Order
pub mod Mapping
mod Tests
use wirm.Base.{ℕ, suc, Bool, not, List, [], ◌∷◌, ◌++◌, if◌then◌else◌}
use wirm.Base.Maps.{HashMap, insert}

-- The traits `GetID` and `LocalOrImport`, as one interface. Every implementation answers
-- `is_local` by the opposite of `is_import`.
pub record Item (T : Type 0) : Type 0 where
  pub get_id : T → ℕ
  pub is_import : T → Bool
  pub is_deleted : T → Bool

abbrev pub is_local : {T : Type 0} → Item T → T → Bool
is_local o x = not (o.is_import x)

module _ {T : Type 0} ⦃o : Item T⦄ where
  -- The loop over `items.drain(..)`, with its two vectors.
  unfoldable pub drain_items : List T → List T → List T → List T × List T
  drain_items result new_local [] = (result, new_local)
  drain_items result new_local (item ∷ rest) =
      if o.is_deleted item
      then drain_items result new_local rest
      else if o.is_import item
      then drain_items (result ++ item ∷ []) new_local rest
      else drain_items result (new_local ++ item ∷ []) rest

  unfoldable pub reorganize : List T → List T
  unfolding drain_items
  reorganize items = let (result, new_local) = drain_items [] [] items in result ++ new_local

  -- The loop of `get_mapping_generic` from position `new_id`, over the mapping so far.
  unfoldable pub get_mapping_from : ℕ → HashMap ℕ → List T → HashMap ℕ
  unfolding insert
  get_mapping_from new_id mapping [] = mapping
  get_mapping_from new_id mapping (item ∷ rest) =
      get_mapping_from (suc new_id) (insert (o.get_id item) new_id mapping) rest

  unfoldable pub get_mapping_generic : List T → HashMap ℕ
  unfolding get_mapping_from
  get_mapping_generic items = get_mapping_from 0 [] items

  -- The reordered items, and the mapping from old IDs.
  unfoldable pub recalculate_ids : List T → List T × HashMap ℕ
  unfolding reorganize get_mapping_generic
  recalculate_ids items = let items' = reorganize items in (items', get_mapping_generic items')
