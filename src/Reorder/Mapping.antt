-- ===== src/Reorder/Mapping.antt =====
-- Where the mapping of `recalculate_ids` sends the old IDs.
use wirm.Base.{
  ℕ, zero, suc, ◌+◌, ◌<◌, ◌≡◌, refl, ◌≢◌, Bool, true, false, List, [], ◌∷◌, ◌++◌, arith, keep,
  length, get_elem?, some, none, All, All-append, All-keep, All-get_elem?, All-insert,
  get_elem?-append_left, get_elem?-append_right, get_elem?-keep, get_elem?-lt, ◌⊎◌, ◌↔◌, Bool-cases,
  inl, inr, ap, sym, ◌==◌, ◌∙◌,
}
use wirm.Base.Maps.{HashMap, get, insert, get-insert, length-insert_new}
use wirm.Reorder.{Item, reorganize, get_mapping_from, get_mapping_generic, recalculate_ids}
use wirm.Reorder.Order.{is_live_import, is_live_local, reorganize_lem}

module _ {T : Type 0} ⦃o : Item T⦄ where
  -- No two items have the same ID.
  abbrev pub HasDistinctIds : List T → Type 0
  HasDistinctIds [] = Unit
  HasDistinctIds (x ∷ xs) = All (λ y. o.get_id x ≢ o.get_id y) xs × HasDistinctIds xs

  get-get_mapping_from_absent :
      (k n : ℕ) (m : HashMap ℕ) (items : List T)
      → All (λ y. k ≢ o.get_id y) items
      → get k (get_mapping_from n m items) ≡ get k m
  unfolding get_mapping_from
  get-get_mapping_from_absent k n m [] h = refl
  get-get_mapping_from_absent k n m (x ∷ xs) h =
      get-get_mapping_from_absent k (suc n) (insert (o.get_id x) n m) xs h.1
      ∙ ground (arith, get-insert (o.get_id x) k n m)

  get-get_mapping_from :
      (n i : ℕ) (m : HashMap ℕ) (items : List T) (x : T)
      → HasDistinctIds items
      → get_elem? items i ≡ some x
      → get (o.get_id x) (get_mapping_from n m items) ≡ some (n + i)
  unfolding get_mapping_from
  get-get_mapping_from n i m [] x d e = cc
  get-get_mapping_from n zero m (y ∷ ys) x d e =
      let e' : y ≡ x = cc in
      rw (← e') (
        get-get_mapping_from_absent (o.get_id y) (suc n) (insert (o.get_id y) n m) ys d.0
        ∙ ground (arith, get-insert (o.get_id y) (o.get_id y) n m))
  get-get_mapping_from n (suc i) m (y ∷ ys) x d e =
      get-get_mapping_from (suc n) i (insert (o.get_id y) n m) ys x d.1 e ∙ ground arith

  -- The mapping sends the ID of each item to the item's position.
  get-get_mapping_generic :
      (items : List T) (i : ℕ) (x : T)
      → HasDistinctIds items
      → get_elem? items i ≡ some x
      → get (o.get_id x) (get_mapping_generic items) ≡ some i
  unfolding get_mapping_generic
  get-get_mapping_generic items i x d e = get-get_mapping_from 0 i [] items x d e ∙ ground arith

  found_from :
      (k n : ℕ) (m : HashMap ℕ) (items : List T) (j : ℕ)
      → get k (get_mapping_from n m items) ≡ some j
      → (get k m ≡ some j)
        ⊎ ((i : ℕ) × (x : T) × (get_elem? items i ≡ some x) × (o.get_id x ≡ k) × (j ≡ n + i))
  unfolding get_mapping_from
  found_from k n m [] j e = inl e
  found_from k n m (x ∷ xs) j e = elim (found_from k (suc n) (insert (o.get_id x) n m) xs j e) [
    | inr (i, y, at, same, pos) ↦ inr (suc i, y, at, same, omega arith)
    | inl old ↦ here (Bool-cases (o.get_id x == k)) old
  ]
    where
      here :
          ((o.get_id x == k) ≡ true) ⊎ ((o.get_id x == k) ≡ false)
          → get k (insert (o.get_id x) n m) ≡ some j
          → (get k m ≡ some j)
            ⊎ ((i : ℕ) × (y : T) × (get_elem? (x ∷ xs) i ≡ some y) × (o.get_id y ≡ k) × (j ≡ n + i))
      here (inl t) old =
          inr (0, x, refl, ground arith, ground (arith, get-insert (o.get_id x) k n m))
      here (inr f) old = inl (ground (arith, get-insert (o.get_id x) k n m))

  -- An ID that the mapping sends somewhere is that of the item found there.
  pub found_of_mapping :
      (items : List T) (k j : ℕ)
      → get k (get_mapping_generic items) ≡ some j
      → (x : T) × (get_elem? items j ≡ some x) × (o.get_id x ≡ k)
  unfolding get_mapping_generic get
  found_of_mapping items k j e = elim (found_from k 0 [] items j e) [
    | inl none_there ↦ cc
    | inr (i, x, at, same, pos) ↦ let e' : j ≡ i = omega arith in (x, rw e' at, same)
  ]

  length-get_mapping_from :
      (n : ℕ) (m : HashMap ℕ) (items : List T)
      → HasDistinctIds items
      → All (λ x. get (o.get_id x) m ≡ none) items
      → length (get_mapping_from n m items) ≡ length m + length items
  unfolding get_mapping_from
  length-get_mapping_from n m [] d h = omega arith
  length-get_mapping_from n m (x ∷ xs) d h = omega (
    arith,
    length-get_mapping_from (suc n) (insert (o.get_id x) n m) xs d.1 (still xs d.0 h.1),
    length-insert_new (o.get_id x) n m h.0,
  )
    where
      still :
          (ys : List T)
          → All (λ y. o.get_id x ≢ o.get_id y) ys
          → All (λ y. get (o.get_id y) m ≡ none) ys
          → All (λ y. get (o.get_id y) (insert (o.get_id x) n m) ≡ none) ys
      still [] a b = tt
      still (y ∷ ys) a b =
          (ground (arith, a.0, get-insert (o.get_id x) (o.get_id y) n m), still ys a.1 b.1)

  HasDistinctIds-insert :
      (xs ys : List T) (y : T)
      → HasDistinctIds (xs ++ ys)
      → All (λ z. o.get_id y ≢ o.get_id z) (xs ++ ys)
      → HasDistinctIds (xs ++ y ∷ ys)
  HasDistinctIds-insert [] ys y d h = (h, d)
  HasDistinctIds-insert (x ∷ xs) ys y d h =
      (All-insert _ xs ys y d.0 (λ e. h.0 (sym e)), HasDistinctIds-insert xs ys y d.1 h.1)

  All-partition {κ} :
      (P : T → Type κ) (items : List T)
      → All P items
      → All P (keep is_live_import items ++ keep is_live_local items)
  All-partition P items h =
      All-append P _ _ (All-keep P is_live_import items h) (All-keep P is_live_local items h)

  HasDistinctIds-partition :
      (items : List T)
      → HasDistinctIds items
      → HasDistinctIds (keep is_live_import items ++ keep is_live_local items)
  HasDistinctIds-partition [] d = tt
  HasDistinctIds-partition (x ∷ xs) d = elim (Bool-cases (o.is_deleted x)) [
    | inl e ↦ simp e (HasDistinctIds-partition xs d.1)
    | inr e ↦ elim (Bool-cases (o.is_import x)) [
      | inl i ↦ simp (e, i) (All-partition _ xs d.0, HasDistinctIds-partition xs d.1)
      | inr i ↦
          simp (e, i)
            (HasDistinctIds-insert (keep is_live_import xs) (keep is_live_local xs) x
              (HasDistinctIds-partition xs d.1) (All-partition _ xs d.0))
    ]
  ]

  reorganize-HasDistinctIds :
      (items : List T) → HasDistinctIds items → HasDistinctIds (reorganize items)
  reorganize-HasDistinctIds items d = rw (reorganize_lem items) (HasDistinctIds-partition items d)

  absent-keep :
      (p : T → Bool) (items : List T) (i : ℕ) (x : T)
      → HasDistinctIds items
      → get_elem? items i ≡ some x
      → p x ≡ false
      → All (λ z. o.get_id x ≢ o.get_id z) (keep p items)
  absent-keep p [] i x d e h = tt
  absent-keep p (y ∷ ys) zero x d e h =
      let e' : y ≡ x = cc in rw (← e') (rw (ap p e' ∙ h) (All-keep _ p ys d.0))
  absent-keep p (y ∷ ys) (suc i) x d e h =
      let other : o.get_id y ≢ o.get_id x = All-get_elem? _ ys i x d.0 e in
      let rest = absent-keep p ys i x d.1 e h in
      elim (Bool-cases (p y)) [ inl t ↦ rw t ((λ s. other (sym s)), rest) | inr f ↦ rw f rest ]

  -- For items with different IDs the mapping of `recalculate_ids` is exact: it sends an old ID
  -- to a position if and only if the item there has that ID.
  pub recalculate_ids-exact :
      (items : List T) (k j : ℕ)
      → HasDistinctIds items
      → (get k (recalculate_ids items).1 ≡ some j)
        ↔ ((x : T) × (get_elem? (recalculate_ids items).0 j ≡ some x) × (o.get_id x ≡ k))
  unfolding recalculate_ids
  recalculate_ids-exact items k j d = (
    found_of_mapping (reorganize items) k j,
    λ (x, at, same).
        rw (← same)
          (get-get_mapping_generic (reorganize items) j x (reorganize-HasDistinctIds items d) at),
  )

  -- Among items with different IDs, a live item is found at the new position of its ID, which
  -- lies among the first positions, as many as there are live imports, exactly if the item is an
  -- import.
  pub recalculate_ids-live :
      (items : List T) (i : ℕ) (x : T)
      → HasDistinctIds items
      → get_elem? items i ≡ some x
      → o.is_deleted x ≡ false
      → (j : ℕ) × (get (o.get_id x) (recalculate_ids items).1 ≡ some j)
        × (get_elem? (recalculate_ids items).0 j ≡ some x)
        × ((j < length (keep is_live_import items)) ↔ (o.is_import x ≡ true))
  unfolding recalculate_ids
  recalculate_ids-live items i x d e live = elim (Bool-cases (o.is_import x)) [
    | inl imp ↦
        let (j, found) = get_elem?-keep is_live_import items i x e (rw (live, imp)) in
        let short = get_elem?-lt (keep is_live_import items) j found in
        at j (get_elem?-append_left imports locals j short ∙ found) ((λ _. imp), (λ _. short))
    | inr loc ↦
        let (j, found) = get_elem?-keep is_live_local items i x e (rw (live, loc)) in
        at (length imports + j) (get_elem?-append_right imports locals j ∙ found)
          ((λ h. absurd (omega arith)), (λ h. cc))
  ]
    where
      imports : List T
      imports = keep is_live_import items

      locals : List T
      locals = keep is_live_local items

      at :
          (j : ℕ)
          → get_elem? (imports ++ locals) j ≡ some x
          → (j < length imports) ↔ (o.is_import x ≡ true)
          → (j : ℕ) × (get (o.get_id x) (get_mapping_generic (reorganize items)) ≡ some j)
            × (get_elem? (reorganize items) j ≡ some x)
            × ((j < length imports) ↔ (o.is_import x ≡ true))
      at j found split =
          let found' : get_elem? (reorganize items) j ≡ some x = rw (reorganize_lem items) found in
          (
            j,
            get-get_mapping_generic (reorganize items) j x (reorganize-HasDistinctIds items d)
                found',
            found',
            split,
          )

  -- For items with different IDs, the mapping of `recalculate_ids` does not have the ID of a
  -- deleted item.
  recalculate_ids-deleted :
      (items : List T) (i : ℕ) (x : T)
      → HasDistinctIds items
      → get_elem? items i ≡ some x
      → o.is_deleted x ≡ true
      → get (o.get_id x) (recalculate_ids items).1 ≡ none
  unfolding recalculate_ids get_mapping_generic get
  recalculate_ids-deleted items i x d e dead =
      get-get_mapping_from_absent (o.get_id x) 0 [] (reorganize items) (
        rw (reorganize_lem items) (
          All-append _ _ _ (absent-keep is_live_import items i x d e (rw dead))
            (absent-keep is_live_local items i x d e (rw dead))))

  -- For items with different IDs, the mapping of `recalculate_ids` has as many entries as there
  -- are items after it.
  recalculate_ids-length :
      (items : List T)
      → HasDistinctIds items
      → length (recalculate_ids items).0 ≡ length (recalculate_ids items).1
  unfolding recalculate_ids get_mapping_generic get
  recalculate_ids-length items d = omega (
    arith,
    length-get_mapping_from 0 [] (reorganize items) (reorganize-HasDistinctIds items d)
        (nowhere (reorganize items)),
  )
    where
      nowhere : (xs : List T) → All (λ x. get {V = ℕ} (o.get_id x) [] ≡ none) xs
      nowhere [] = tt
      nowhere (x ∷ xs) = (refl, nowhere xs)
