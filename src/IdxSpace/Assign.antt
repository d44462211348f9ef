-- ===== src/IdxSpace/Assign.antt =====
-- What an assignment does to the slots of an `IdxSpace`, its counter and its cache.
use wirm.Base.{
  ℕ, suc, ◌≡◌, ◌⊎◌, refl, ap, sym, ◌∙◌, some, [], ◌∷◌, ◌++◌, ==_iff, ==_refl, get_elem?, length,
  ◌==◌, inl, inr, Bool-cases, IsDistinct, get_elem?-snoc, get_elem?-append_left, get_elem?-lt,
}
use wirm.Base.Maps.{HashMap, get}
use wirm.Space.{SpaceSubtype, ComponentSection, exported, imported, aliased, main}
use wirm.IdxSpace.{
  AssumedIdForIdx, IdxSpace, ids_of, with_ids, subtype_of, add_id, assign_assumed_id,
}
use wirm.IdxSpace.Slots.{slot, keys, slot-add_id, add_id-IsDistinct, ids_at}

ids_of-with_ids :
    (s : IdxSpace) (vector subty : SpaceSubtype) (m : HashMap AssumedIdForIdx)
    → ((subty ≡ vector) × (ids_of (with_ids s vector m) subty ≡ m))
      ⊎ (ids_of (with_ids s vector m) subty ≡ ids_of s subty)
unfolding ids_of with_ids
ids_of-with_ids s main main m = inl (refl, refl)
ids_of-with_ids s main imported m = inr refl
ids_of-with_ids s main exported m = inr refl
ids_of-with_ids s main aliased m = inr refl
ids_of-with_ids s imported main m = inr refl
ids_of-with_ids s imported imported m = inl (refl, refl)
ids_of-with_ids s imported exported m = inr refl
ids_of-with_ids s imported aliased m = inr refl
ids_of-with_ids s exported main m = inr refl
ids_of-with_ids s exported imported m = inr refl
ids_of-with_ids s exported exported m = inl (refl, refl)
ids_of-with_ids s exported aliased m = inr refl
ids_of-with_ids s aliased main m = inr refl
ids_of-with_ids s aliased imported m = inr refl
ids_of-with_ids s aliased exported m = inr refl
ids_of-with_ids s aliased aliased m = inl (refl, refl)

ids_of-with_ids_self :
    (s : IdxSpace) (vector : SpaceSubtype) (m : HashMap AssumedIdForIdx)
    → ids_of (with_ids s vector m) vector ≡ m
unfolding ids_of with_ids
ids_of-with_ids_self s main m = refl
ids_of-with_ids_self s imported m = refl
ids_of-with_ids_self s exported m = refl
ids_of-with_ids_self s aliased m = refl

ids_of-counted :
    (s : IdxSpace) (n : ℕ) (subty : SpaceSubtype)
    → ids_of (record s { current_id = n }) subty ≡ ids_of s subty
unfolding ids_of
ids_of-counted s n main = refl
ids_of-counted s n imported = refl
ids_of-counted s n exported = refl
ids_of-counted s n aliased = refl

current_id-with_ids :
    (s : IdxSpace) (vector : SpaceSubtype) (m : HashMap AssumedIdForIdx)
    → (with_ids s vector m).current_id ≡ s.current_id
unfolding with_ids
current_id-with_ids s main m = refl
current_id-with_ids s imported m = refl
current_id-with_ids s exported m = refl
current_id-with_ids s aliased m = refl

cache-with_ids :
    (s : IdxSpace) (vector : SpaceSubtype) (m : HashMap AssumedIdForIdx)
    → (with_ids s vector m).index_from_assumed_id_cache ≡ s.index_from_assumed_id_cache
unfolding with_ids
cache-with_ids s main m = refl
cache-with_ids s imported m = refl
cache-with_ids s exported m = refl
cache-with_ids s aliased m = refl

-- Where an assignment puts the new ID, and where it changes nothing.
assign-slot :
    (s : IdxSpace) (section : ComponentSection) (v : ℕ) (subty : SpaceSubtype) (idx : ℕ)
    → ((subty ≡ subtype_of section)
        × (idx ≡ v)
        × (slot (assign_assumed_id s section v).1 subty idx
            ≡ slot s subty idx ++ s.current_id ∷ []))
      ⊎ (slot (assign_assumed_id s section v).1 subty idx ≡ slot s subty idx)
unfolding assign_assumed_id
assign-slot s section v subty idx =
    let counted = record s { current_id = suc s.current_id } in
    let vector = subtype_of section in
    let m = add_id (ids_of counted vector) v s.current_id in
    elim (ids_of-with_ids counted vector subty m) [
      | inr other ↦
          inr (ap (λ n. ids_at (get idx n)) (other ∙ ids_of-counted s (suc s.current_id) subty))
      | inl (same, e) ↦
          let here : slot (with_ids counted vector m) subty idx ≡ ids_at (get idx m) =
            ap (λ n. ids_at (get idx n)) e in
          let old : ids_of counted vector ≡ ids_of s subty =
            ids_of-counted s (suc s.current_id) vector ∙ ap (ids_of s) (sym same) in
          let added = slot-add_id (ids_of counted vector) v s.current_id idx in
          elim (Bool-cases (v == idx)) [
            | inl t ↦ inl (
              same,
              sym ((==_iff v idx).0 t),
              here ∙ rw t at added ∙ ap (λ n. ids_at (get idx n) ++ s.current_id ∷ []) old,
            )
            | inr f ↦ inr (here ∙ rw f at added ∙ ap (λ n. ids_at (get idx n)) old)
          ]
    ]

pub assign-slot_self :
    (s : IdxSpace) (section : ComponentSection) (v : ℕ)
    → slot (assign_assumed_id s section v).1 (subtype_of section) v
      ≡ slot s (subtype_of section) v ++ s.current_id ∷ []
unfolding assign_assumed_id
assign-slot_self s section v =
    let counted = record s { current_id = suc s.current_id } in
    let vector = subtype_of section in
    let m = add_id (ids_of counted vector) v s.current_id in
    let added = slot-add_id (ids_of counted vector) v s.current_id v in
    ap (λ n. ids_at (get v n)) (ids_of-with_ids_self counted vector m)
    ∙ rw (==_refl v) at added
    ∙ ap (λ n. ids_at (get v n) ++ s.current_id ∷ []) (ids_of-counted s (suc s.current_id) vector)

pub assign-current_id :
    (s : IdxSpace) (section : ComponentSection) (v : ℕ)
    → (assign_assumed_id s section v).1.current_id ≡ suc s.current_id
unfolding assign_assumed_id
assign-current_id s section v = current_id-with_ids _ (subtype_of section) _

pub assign-cache :
    (s : IdxSpace) (section : ComponentSection) (v : ℕ)
    → (assign_assumed_id s section v).1.index_from_assumed_id_cache ≡ s.index_from_assumed_id_cache
unfolding assign_assumed_id
assign-cache s section v = cache-with_ids _ (subtype_of section) _

pub assign-IsDistinct :
    (s : IdxSpace) (section : ComponentSection) (v : ℕ)
    → ((subty : SpaceSubtype) → IsDistinct (keys (ids_of s subty)))
    → (subty : SpaceSubtype) → IsDistinct (keys (ids_of (assign_assumed_id s section v).1 subty))
unfolding assign_assumed_id
assign-IsDistinct s section v distinct subty =
    let counted = record s { current_id = suc s.current_id } in
    let vector = subtype_of section in
    let m = add_id (ids_of counted vector) v s.current_id in
    elim (ids_of-with_ids counted vector subty m) [
      | inr other ↦ rw (other, ids_of-counted s (suc s.current_id) subty) (distinct subty)
      | inl (same, e) ↦ rw e (
          add_id-IsDistinct (ids_of counted vector) v s.current_id
            (rw (ids_of-counted s (suc s.current_id) vector) (distinct vector)))
    ]

-- What stands in a slot after an assignment stood there before, or is the new ID at its end.
pub assigned_at :
    (s : IdxSpace) (section : ComponentSection) (v : ℕ) (subty : SpaceSubtype) (idx j id : ℕ)
    → get_elem? (slot (assign_assumed_id s section v).1 subty idx) j ≡ some id
    → (get_elem? (slot s subty idx) j ≡ some id)
      ⊎ ((id ≡ s.current_id)
          × (subty ≡ subtype_of section)
          × (idx ≡ v)
          × (j ≡ length (slot s (subtype_of section) v)))
assigned_at s section v subty idx j id at = elim (assign-slot s section v subty idx) [
  | inr same ↦ inl (rw same at at)
  | inl (vector, index, grown) ↦
      elim (get_elem?-snoc (slot s subty idx) s.current_id j id (rw grown at at)) [
        | inl old ↦ inl old
        | inr (new, end) ↦ inr (new, vector, index, rw (← vector, ← index) end)
      ]
]

pub assign-keeps :
    (s : IdxSpace) (section : ComponentSection) (v : ℕ) (subty : SpaceSubtype) (idx j id : ℕ)
    → get_elem? (slot s subty idx) j ≡ some id
    → get_elem? (slot (assign_assumed_id s section v).1 subty idx) j ≡ some id
assign-keeps s section v subty idx j id at = elim (assign-slot s section v subty idx) [
  | inr same ↦ rw same at
  | inl (vector, index, grown) ↦
      rw grown
        (get_elem?-append_left (slot s subty idx) (s.current_id ∷ []) j (get_elem?-lt _ j at) ∙ at)
]
