-- ===== src/TypeSection/Laws.antt =====
-- `ModuleTypes` (ir/module/module_types.rs): one ID for each type of the module.
use wirm.Base.{
  ℕ, ◌≡◌, ◌≤◌, ◌+◌, refl, sym, ap, ◌∙◌, arith, Bool, true, false, none, some, List, [], ◌∷◌, length,
  ◌==◌, if◌then◌else◌, Bool-cases, Option-cases, inl, inr,
}
use mathlib.Core.Option.{some-injective}
use wirm.Base.Maps.{HashMap, get, insert, get-insert, length-insert_new}
use wirm.TypeSection.{Types, ModuleTypes, same_types, find_type, insert_type, add_found, add_type}
use wirm.TypeSection.Equality.{
  IsEquality, forget, same_types_iff, same_types-right, same_types-left,
}

module _ {P : Type 0} {same_index : P → P → Bool} (index : IsEquality same_index) where
  find_type-right :
      (a b : Types P) (m : List (Types P × ℕ))
      → forget a ≡ forget b
      → find_type same_index a m ≡ find_type same_index b m
  unfolding find_type
  find_type-right a b [] e = refl
  find_type-right a b ((key, id) ∷ m) e =
      rw (same_types-right index key a b e, find_type-right a b m e) refl

  pub find_type-insert_type :
      (a b : Types P) (id : ℕ) (m : List (Types P × ℕ))
      → find_type same_index b (insert_type same_index a id m)
        ≡ (if same_types same_index a b then some id else find_type same_index b m)
  unfolding find_type insert_type
  find_type-insert_type a b id [] = refl
  find_type-insert_type a b id ((key, old) ∷ m) = elim (Bool-cases (same_types same_index key a)) [
    | inl t ↦
        let alike = same_types-left index key a b ((same_types_iff index key a).0 t) in
        elim (Bool-cases (same_types same_index a b)) [
          | inl u ↦ rw (t, alike, u) refl
          | inr u ↦ rw (t, alike, u) refl
        ]
    | inr t ↦ elim (Bool-cases (same_types same_index a b)) [
      | inl u ↦
          let other = same_types-right index key a b ((same_types_iff index a b).0 u) in
          let apart : same_types same_index key b ≡ false = sym other ∙ t in
          rw (t, apart, find_type-insert_type a b id m, u) refl
      | inr u ↦ rw (t, find_type-insert_type a b id m, u) refl
    ]
  ]

  -- `types_map` names, for a type, the ID of an equal one.
  abbrev pub IsSound : HashMap (Types P) → List (Types P × ℕ) → Type 0
  IsSound types types_map =
      (ty : Types P) (id : ℕ)
      → find_type same_index ty types_map ≡ some id
      → (ty' : Types P) × (get id types ≡ some ty') × (forget ty' ≡ forget ty)

  -- Every ID is below the number of types, and `types_map` names an equal type for every type that
  -- the module has, and for no other.
  pub record IsValid (m : ModuleTypes P) : Type 0 where
    pub fresh : (id : ℕ) → length m.types ≤ id → get id m.types ≡ none
    pub sound : IsSound m.types m.types_map
    pub complete :
        (id : ℕ) (ty : Types P)
        → get id m.types ≡ some ty
        → (id' : ℕ) × (find_type same_index ty m.types_map ≡ some id')

  -- A new type at a free ID.
  insert-IsSound :
      (types : HashMap (Types P)) (types_map : List (Types P × ℕ)) (ty : Types P) (id : ℕ)
      → get id types ≡ none
      → IsSound types types_map
      → IsSound (insert id ty types) (insert_type same_index ty id types_map)
  insert-IsSound types types_map ty id free sound b j h =
      elim (Bool-cases (same_types same_index ty b)) [
        | inl t ↦
            let named : some id ≡ some j =
              (let e = find_type-insert_type ty b id types_map in rw t at (sym e ∙ h)) in
            let same : id ≡ j = some-injective _ _ named in
            (ty, ground (arith, get-insert id j ty types), (same_types_iff index ty b).0 t)
        | inr u ↦
            let before : find_type same_index b types_map ≡ some j =
              (let e = find_type-insert_type ty b id types_map in rw u at (sym e ∙ h)) in
            let (ty', at, alike) = sound b j before in
            let apart : (id == j) ≡ false = ground (arith, free, at) in
            (ty', rw (get-insert id j ty types, apart) at, alike)
      ]

  pub find_type-kept :
      (a b : Types P) (id x : ℕ) (m : List (Types P × ℕ))
      → find_type same_index b m ≡ some x
      → (x' : ℕ) × (find_type same_index b (insert_type same_index a id m) ≡ some x')
  find_type-kept a b id x m h = elim (Bool-cases (same_types same_index a b)) [
    | inl t ↦ (id, rw (find_type-insert_type a b id m, t) refl)
    | inr u ↦ (x, rw (find_type-insert_type a b id m, u) h)
  ]

  pub find_type-added :
      (a b : Types P) (id : ℕ) (m : List (Types P × ℕ))
      → forget a ≡ forget b
      → find_type same_index b (insert_type same_index a id m) ≡ some id
  find_type-added a b id m e =
      let same : same_types same_index a b ≡ true = (same_types_iff index a b).1 e in
      rw (find_type-insert_type a b id m, same) refl

  insert-IsValid :
      (m : ModuleTypes P) (ty : Types P)
      → IsValid m
      → IsValid (add_found same_index none m ty (length m.types)).1
  unfolding add_found
  insert-IsValid m ty valid =
      let id = length m.types in
      let free : get id m.types ≡ none = valid.fresh id (omega arith) in
      let size : length (insert id ty m.types) ≡ length m.types + 1 =
        length-insert_new id ty m.types free in
      record {
        fresh = λ j h.
            (let apart : (id == j) ≡ false = ground (arith, size) in
              rw (get-insert id j ty m.types, apart) (valid.fresh j (omega (arith, size))));
        sound = insert-IsSound m.types m.types_map ty id free valid.sound;
        complete = λ j t h. elim (Bool-cases (id == j)) [
          | inl e ↦
              let at : some ty ≡ some t =
                (let g = get-insert id j ty m.types in rw e at (sym g ∙ h)) in
              (id, find_type-added ty t id m.types_map (ap forget (some-injective _ _ at)))
          | inr e ↦
              let at : get j m.types ≡ some t =
                (let g = get-insert id j ty m.types in rw e at (sym g ∙ h)) in
              let (x, found) = valid.complete j t at in find_type-kept ty t id x m.types_map found
        ];
      }

  -- In a valid type section, where packed indices are compared by equality, adding a type under
  -- the next ID keeps the section valid, and the type that stands at the ID given agrees with
  -- the added one in all but the tag, the descriptor and what it describes.
  pub add_type-IsValid :
      (m : ModuleTypes P) (ty : Types P)
      → IsValid m
      → IsValid (add_type same_index m ty (length m.types)).1
        × ((ty' : Types P) × (get
                (add_type same_index m ty (length m.types)).0
                (add_type same_index m ty (length m.types)).1.types
              ≡ some ty')
            × (forget ty' ≡ forget ty))
  unfolding add_type
  add_type-IsValid m ty valid = elim (Option-cases (find_type same_index ty m.types_map)) [
    | inl missing ↦
        let id = length m.types in
        rw missing (
          insert-IsValid m ty valid,
          unfold add_found in (ty, ground (arith, get-insert id id ty m.types), refl),
        )
    | inr (id, found) ↦ rw found (unfold add_found in (valid, valid.sound ty id found))
  ]

  -- In a valid type section, adding a type under the next ID leaves every type at its ID.
  pub add_type-keeps :
      (m : ModuleTypes P) (ty t : Types P) (id : ℕ)
      → IsValid m
      → get id m.types ≡ some t
      → get id (add_type same_index m ty (length m.types)).1.types ≡ some t
  unfolding add_type add_found
  add_type-keeps m ty t id valid at = elim (Option-cases (find_type same_index ty m.types_map)) [
    | inl missing ↦
        let free : get (length m.types) m.types ≡ none =
          valid.fresh (length m.types) (omega arith) in
        let apart : (length m.types == id) ≡ false = ground (arith, free, at) in
        rw missing (rw (get-insert (length m.types) id ty m.types, apart) at)
    | inr (x, found) ↦ rw found at
  ]

  -- After a type is added, adding one that agrees with it in all but the tag, the descriptor and
  -- what it describes gives the same ID and changes nothing.
  pub add_type-again :
      (m : ModuleTypes P) (a b : Types P) (id id' : ℕ)
      → forget a ≡ forget b
      → add_type same_index (add_type same_index m a id).1 b id' ≡ add_type same_index m a id
  unfolding add_type add_found
  add_type-again m a b id id' e = elim (Option-cases (find_type same_index a m.types_map)) [
    | inl missing ↦ rw missing (rw (find_type-added a b id m.types_map e) refl)
    | inr (x, found) ↦
        let again : find_type same_index b m.types_map ≡ some x =
          sym (find_type-right a b m.types_map e) ∙ found in
        rw found (rw again refl)
  ]
