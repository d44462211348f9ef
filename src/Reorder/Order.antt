-- ===== src/Reorder/Order.antt =====
-- What `reorganize` leaves and in which order.
use wirm.Base.{◌≡◌, Bool, not, ◌&&◌, List, [], ◌∷◌, ◌++◌, keep, Bool-cases, inl, inr}
use mathlib.Core.List.{append_assoc, append-nil, Perm, perm_middle}
use mathlib.Core.List.Perm
use wirm.Reorder.{Item, drain_items, reorganize, is_local}

module _ {T : Type 0} ⦃o : Item T⦄ where
  abbrev pub is_live : T → Bool
  is_live x = not (o.is_deleted x)

  abbrev pub is_live_import : T → Bool
  is_live_import x = is_live x && o.is_import x

  abbrev pub is_live_local : T → Bool
  is_live_local x = is_live x && is_local o x

  drain_items-keep :
      (result new_local items : List T)
      → drain_items result new_local items
        ≡ (result ++ keep is_live_import items, new_local ++ keep is_live_local items)
  unfolding drain_items
  drain_items-keep result new_local [] = simp append-nil
  drain_items-keep result new_local (item ∷ rest) = elim (Bool-cases (o.is_deleted item)) [
    | inl d ↦ simp d (drain_items-keep result new_local rest)
    | inr d ↦ elim (Bool-cases (o.is_import item)) [
      | inl i ↦
          simp (d, i)
            (rw (drain_items-keep (result ++ item ∷ []) new_local rest) (simp append_assoc))
      | inr i ↦
          simp (d, i)
            (rw (drain_items-keep result (new_local ++ item ∷ []) rest) (simp append_assoc))
    ]
  ]

  -- `reorganize` drops the deleted items, and puts the imports before the local items, each of
  -- the two groups in the order in which it stood.
  pub reorganize_lem :
      (items : List T) → reorganize items ≡ keep is_live_import items ++ keep is_live_local items
  unfolding reorganize
  reorganize_lem items = rw (drain_items-keep [] [] items)

  keep-perm :
      (items : List T)
      → Perm (keep is_live_import items ++ keep is_live_local items) (keep is_live items)
  keep-perm [] = Perm.refl []
  keep-perm (item ∷ rest) = elim (Bool-cases (o.is_deleted item)) [
    | inl d ↦ simp d (keep-perm rest)
    | inr d ↦ elim (Bool-cases (o.is_import item)) [
      | inl i ↦ simp (d, i) (Perm.cons item (keep-perm rest))
      | inr i ↦
          simp (d, i)
            (Perm.trans (perm_middle (keep is_live_import rest) (keep is_live_local rest))
              (Perm.cons item (keep-perm rest)))
    ]
  ]

  -- `reorganize` permutes the live items: none is lost or doubled.
  reorganize-perm : (items : List T) → Perm (reorganize items) (keep is_live items)
  reorganize-perm items = rw (reorganize_lem items) (keep-perm items)
