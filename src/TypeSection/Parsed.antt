-- ===== src/TypeSection/Parsed.antt =====
-- `ModuleTypes::new` (ir/module/module_types.rs), on the types that a parsed module has.
use wirm.Base.{
  ℕ, ◌≡◌, ◌≤◌, refl, sym, subst, ap, ◌∙◌, Bool, none, some, List, [], ◌∷◌, length, ltb, ◌==◌,
  Bool-cases, inl, inr, All, arith,
}
use mathlib.Core.Option.{some-injective}
use wirm.Base.Results.{ok}
use wirm.Base.Maps.{HashMap, get}
use wirm.TypeSection.{
  RecGroup, Types, ModuleTypes, same_types, find_type, insert_type, insert_id, sorted_ids,
  map_types, new,
}
use wirm.TypeSection.Equality.{IsEquality, forget, same_types_iff}
use wirm.TypeSection.Laws.{IsSound, IsValid, find_type-insert_type, find_type-kept, find_type-added}

-- The sorted IDs are those of the map.
All-insert_id :
    (Q : ℕ → Type 0) (id : ℕ) (ids : List ℕ) → Q id → All Q ids → All Q (insert_id id ids)
unfolding insert_id
All-insert_id Q id [] q all = (q, tt)
All-insert_id Q id (other ∷ ids) q all = elim (Bool-cases (ltb other id)) [
  | inl t ↦ rw t (all.0, All-insert_id Q id ids q all.1)
  | inr u ↦ rw u (q, all)
]

All-of_insert_id :
    (Q : ℕ → Type 0) (id : ℕ) (ids : List ℕ) → All Q (insert_id id ids) → Q id × All Q ids
unfolding insert_id
All-of_insert_id Q id [] all = all
All-of_insert_id Q id (other ∷ ids) all = elim (Bool-cases (ltb other id)) [
  | inl t ↦
      let split : Q other × All Q (insert_id id ids) = rw t at all in
      let (here, rest) = All-of_insert_id Q id ids split.1 in (here, (split.0, rest))
  | inr u ↦ rw u at all
]

module _ {V : Type 0} where
  sorted_ids-keys :
      (Q : ℕ → Type 0) (types : HashMap V)
      → ((id : ℕ) (ty : V) → get id types ≡ some ty → Q id)
      → All Q (sorted_ids types)
  unfolding sorted_ids get
  sorted_ids-keys Q [] h = tt
  sorted_ids-keys Q ((id, ty) ∷ types) h =
      All-insert_id Q id (sorted_ids types) (h id ty (ground arith)) (
        sorted_ids-keys Q types λ j t e. elim (Bool-cases (id == j)) [
          | inl same ↦ h j ty (rw same refl)
          | inr apart ↦ h j t (rw apart e)
        ])

  sorted_ids-get :
      (Q : ℕ → Type 0) (types : HashMap V)
      → All Q (sorted_ids types)
      → (id : ℕ) (ty : V) → get id types ≡ some ty
      → Q id
  unfolding sorted_ids get
  sorted_ids-get Q [] all id ty e = ground arith
  sorted_ids-get Q ((key, t) ∷ types) all id ty e =
      let (here, rest) = All-of_insert_id Q key (sorted_ids types) all in
      elim (Bool-cases (key == id)) [
        | inl same ↦ (let eq : key ≡ id = ground arith in subst Q eq here)
        | inr apart ↦ sorted_ids-get Q types rest id ty (rw apart at e)
      ]

module _ {P : Type 0} {same_index : P → P → Bool} (index : IsEquality same_index)
    (types : HashMap (Types P)) where
  abbrev IsNamed : List (Types P × ℕ) → ℕ → Type 0
  IsNamed types_map id =
      (ty : Types P)
      → get id types ≡ some ty
      → (x : ℕ) × (find_type same_index ty types_map ≡ some x)

  map-IsSound :
      (types_map : List (Types P × ℕ)) (ty : Types P) (id : ℕ)
      → get id types ≡ some ty
      → IsSound index types types_map
      → IsSound index types (insert_type same_index ty id types_map)
  map-IsSound types_map ty id at sound b j h = elim (Bool-cases (same_types same_index ty b)) [
    | inl t ↦
        let named : some id ≡ some j =
          (let e = find_type-insert_type index ty b id types_map in rw t at (sym e ∙ h)) in
        let same : id ≡ j = some-injective _ _ named in
        (ty, rw (sym same) at, (same_types_iff index ty b).0 t)
    | inr u ↦
        sound b j (let e = find_type-insert_type index ty b id types_map in rw u at (sym e ∙ h))
  ]

  -- The loop over some IDs of the map: it succeeds, and names the type of each.
  map_types_lem :
      (ids : List ℕ) (types_map : List (Types P × ℕ))
      → All (λ id. (ty : Types P) × (get id types ≡ some ty)) ids
      → IsSound index types types_map
      → (types_map' : List (Types P × ℕ)) × (map_types same_index ids types types_map
          ≡ ok types_map')
        × IsSound index types types_map'
        × ((ty : Types P) (x : ℕ)
            → find_type same_index ty types_map ≡ some x
            → (x' : ℕ) × (find_type same_index ty types_map' ≡ some x'))
        × All (IsNamed types_map') ids
  unfolding map_types
  map_types_lem [] types_map has sound = (types_map, refl, sound, λ ty x e. (x, e), tt)
  map_types_lem (id ∷ ids) types_map has sound =
      let (ty, at) = has.0 in
      let (m, e, sound', kept, named) =
        map_types_lem ids (insert_type same_index ty id types_map) has.1
          (map-IsSound types_map ty id at sound) in
      (
        m,
        rw at e,
        sound',
        λ b x h. (let (x', h') = find_type-kept index ty b id x types_map h in kept b x' h'),
        (
          λ b at'. kept b id (
              find_type-added index ty b id types_map
                (ap forget (some-injective _ _ (sym at ∙ at')))),
          named,
        ),
      )

  -- On types whose IDs are all below their number, `new` succeeds, keeps the types and gives a
  -- valid section, also where two of them are equal.
  pub new-IsValid :
      (groups : List RecGroup)
      → ((id : ℕ) → length types ≤ id → get id types ≡ none)
      → (m : ModuleTypes P) × (new same_index groups types ≡ ok m)
        × (m.types ≡ types)
        × IsValid index m
  unfolding new
  new-IsValid groups fresh =
      let (m, e, sound, kept, named) =
        map_types_lem (sorted_ids types) [] (sorted_ids-keys _ types (λ id ty at. (ty, at)))
          (unfold find_type in λ ty id h. ground arith) in
      (
        record { groups = groups; types = types; types_map = m },
        rw e refl,
        refl,
        record {
          fresh = fresh;
          sound = sound;
          complete = λ id ty at. sorted_ids-get (IsNamed m) types named id ty at ty at;
        },
      )
