-- ===== src/IdxSpace/Laws.antt =====
-- `IdxSpace` keeps the positions of its IDs: the invariant, that every operation preserves it, and
-- that an item is found again where it was put.
use wirm.Base.{
  ℕ, ◌<◌, ◌≤◌, ◌≡◌, ◌≢◌, refl, ap, sym, ◌∙◌, Option, none, some, [], arith, ==_iff, get_elem?,
  length, ◌==◌, inl, inr, Bool-cases, Option-cases, IsDistinct, true, false, get_elem?-append_self,
}
use wirm.Base.Maps.{HashMap, get, insert, get-insert}
use wirm.Space.{SpaceSubtype, ComponentSection, exported, imported, aliased, main}
use wirm.IdxSpace.{
  IdxSpace, Place, ids_of, subtype_of, find_index, index_from_assumed_id,
  index_from_assumed_id_no_cache, assign_assumed_id, default_space,
}
use mathlib.Core.Option.{some-injective}
use wirm.IdxSpace.Caching.{search_maps-find_index}
use wirm.IdxSpace.Search.{or_else-some, StandsAt, find_index_sound, find_index_complete}
use wirm.IdxSpace.Assign.{
  assign-slot_self, assign-current_id, assign-cache, assign-IsDistinct, assigned_at, assign-keeps,
}
use wirm.IdxSpace.Slots.{slot, position, keys, ids_at}

pub record IsValid (s : IdxSpace) : Type 0 where
  -- Every ID given out is below `current_id`, stands somewhere, and in one place only.
  below :
      (subty : SpaceSubtype) (idx j id : ℕ)
      → get_elem? (slot s subty idx) j ≡ some id
      → id < s.current_id
  given :
      (id : ℕ)
      → id < s.current_id
      → (subty : SpaceSubtype) × (idx : ℕ) × (j : ℕ) × (get_elem? (slot s subty idx) j ≡ some id)
  unique :
      (id : ℕ) (subty subty' : SpaceSubtype) (idx idx' j j' : ℕ)
      → get_elem? (slot s subty idx) j ≡ some id
      → get_elem? (slot s subty' idx') j' ≡ some id
      → (subty ≡ subty') × (idx ≡ idx') × (j ≡ j')
  -- What the cache holds is where the ID stands.
  cached : (id : ℕ) (p : Place) → get id s.index_from_assumed_id_cache ≡ some p → StandsAt s id p
  distinct : (subty : SpaceSubtype) → IsDistinct (keys (ids_of s subty))

default_slot : (subty : SpaceSubtype) (idx : ℕ) → slot default_space subty idx ≡ []
unfolding ids_of get
default_slot main idx = refl
default_slot imported idx = refl
default_slot exported idx = refl
default_slot aliased idx = refl

default_keys : (subty : SpaceSubtype) → keys (ids_of default_space subty) ≡ []
unfolding ids_of
default_keys main = refl
default_keys imported = refl
default_keys exported = refl
default_keys aliased = refl

default_holds_none :
    {X : Type 0} (subty : SpaceSubtype) (idx j id : ℕ)
    → get_elem? (slot default_space subty idx) j ≡ some id
    → X
default_holds_none subty idx j id h =
    absurd (let e : none ≡ some id = rw (default_slot subty idx) at h in cc)

pub default_space-IsValid : IsValid default_space
unfolding get
default_space-IsValid = record {
  below = λ subty idx j id h. default_holds_none subty idx j id h;
  given = λ id h. absurd (omega (arith, h));
  unique = λ id subty subty' idx idx' j j' h h'. default_holds_none subty idx j id h;
  cached = λ id p h. absurd (let e : none ≡ some p = h in cc);
  distinct = λ subty. rw (default_keys subty) tt;
}

-- `assign_assumed_id` keeps a space valid.
pub assign_assumed_id-IsValid :
    (s : IdxSpace) (section : ComponentSection) (v : ℕ)
    → IsValid s
    → IsValid (assign_assumed_id s section v).1
assign_assumed_id-IsValid s section v h =
    let counted = assign-current_id s section v in
    record {
      below = λ subty idx j id at. elim (assigned_at s section v subty idx j id at) [
        | inl old ↦ omega (arith, counted, h.below subty idx j id old)
        | inr new ↦ omega (arith, counted, new.0)
      ];
      given = λ id lt. elim (Bool-cases (id == s.current_id)) [
        | inl t ↦ (
          subtype_of section,
          v,
          length (slot s (subtype_of section) v),
          rw (assign-slot_self s section v, (==_iff id s.current_id).0 t)
              (get_elem?-append_self (slot s (subtype_of section) v) s.current_id []),
        )
        | inr f ↦
            let ne : id ≢ s.current_id =
              λ e. let c : true ≡ false = sym ((==_iff id s.current_id).1 e) ∙ f in cc in
            let (subty, idx, j, at) = h.given id (omega (arith, counted, lt, ne)) in
            (subty, idx, j, assign-keeps s section v subty idx j id at)
      ];
      unique = λ id subty subty' idx idx' j j' at at'.
          elim (assigned_at s section v subty idx j id at) [
            | inl old ↦ elim (assigned_at s section v subty' idx' j' id at') [
              | inl old' ↦ h.unique id subty subty' idx idx' j j' old old'
              | inr new' ↦ absurd (omega (arith, h.below subty idx j id old, new'.0))
            ]
            | inr new ↦ elim (assigned_at s section v subty' idx' j' id at') [
              | inl old' ↦ absurd (omega (arith, h.below subty' idx' j' id old', new.0))
              | inr new' ↦ (new.1 ∙ sym new'.1, new.2 ∙ sym new'.2, new.3 ∙ sym new'.3)
            ]
          ];
      cached = λ id p found.
          assign-keeps s section v p.0 p.1.0 (position p.1.1) id
            (h.cached id p (rw (assign-cache s section v) at found));
      distinct = assign-IsDistinct s section v h.distinct;
    }

ids_of-cached :
    (s : IdxSpace) (c : HashMap Place) (subty : SpaceSubtype)
    → ids_of (record s { index_from_assumed_id_cache = c }) subty ≡ ids_of s subty
unfolding ids_of
ids_of-cached s c main = refl
ids_of-cached s c imported = refl
ids_of-cached s c exported = refl
ids_of-cached s c aliased = refl

-- Remembering where an ID stands keeps the space valid.
cached-IsValid :
    (s : IdxSpace) (id : ℕ) (p : Place)
    → IsValid s
    → StandsAt s id p
    → IsValid (record s { index_from_assumed_id_cache = insert id p s.index_from_assumed_id_cache })
cached-IsValid s id p h at =
    let c = insert id p s.index_from_assumed_id_cache in
    let same : (subty : SpaceSubtype) (idx : ℕ)
        → slot (record s { index_from_assumed_id_cache = c }) subty idx ≡ slot s subty idx =
      λ subty idx. ap (λ m. ids_at (get idx m)) (ids_of-cached s c subty) in
    record {
      below = λ subty idx j i at'. h.below subty idx j i (rw (same subty idx) at at');
      given = λ i lt.
          let (subty, idx, j, at') = h.given i lt in (subty, idx, j, rw (same subty idx) at');
      unique = λ i subty subty' idx idx' j j' one two.
          h.unique i subty subty' idx idx' j j' (rw (same subty idx) at one)
            (rw (same subty' idx') at two);
      cached = λ i q found. elim (Bool-cases (id == i)) [
        | inl t ↦
            let e : p ≡ q =
              some-injective _ _
                (rw (get-insert id i p s.index_from_assumed_id_cache, t) at found) in
            rw (same q.0 q.1.0, ← e, ← (==_iff id i).0 t) at
        | inr f ↦
            rw (same q.0 q.1.0)
              (h.cached i q (rw (get-insert id i p s.index_from_assumed_id_cache, f) at found))
      ];
      distinct = λ subty. rw (ids_of-cached s c subty) (h.distinct subty);
    }

-- `index_from_assumed_id` keeps a space valid, whether it finds the ID in the cache, in a map,
-- or nowhere.
pub index_from_assumed_id-IsValid :
    (s : IdxSpace) (id : ℕ) → IsValid s → IsValid (index_from_assumed_id s id).1
unfolding index_from_assumed_id
index_from_assumed_id-IsValid s id h = elim (Option-cases (get id s.index_from_assumed_id_cache)) [
  | inr (p, found) ↦ rw found h
  | inl missing ↦ elim (Option-cases (find_index s id)) [
    | inl nowhere ↦ rw (missing, search_maps-find_index s id, nowhere) h
    | inr (p, found) ↦
        rw (missing, search_maps-find_index s id, found)
          (cached-IsValid s id p h (find_index_sound s id p h.distinct found))
  ]
]

-- The search of `index_from_assumed_id`, which fills the cache, and that of
-- `index_from_assumed_id_no_cache` give the same answer in every space.
pub index_from_assumed_id-no_cache :
    (s : IdxSpace) (id : ℕ) → (index_from_assumed_id s id).0 ≡ index_from_assumed_id_no_cache s id
unfolding index_from_assumed_id index_from_assumed_id_no_cache
index_from_assumed_id-no_cache s id = elim (Option-cases (get id s.index_from_assumed_id_cache)) [
  | inr (p, found) ↦ rw found refl
  | inl missing ↦ elim (Option-cases (find_index s id)) [
    | inl nowhere ↦ rw (missing, search_maps-find_index s id, nowhere) refl
    | inr (p, found) ↦ rw (missing, search_maps-find_index s id, found) refl
  ]
]

no_cache-StandsAt :
    (s : IdxSpace) (id : ℕ) (p : Place)
    → IsValid s
    → index_from_assumed_id_no_cache s id ≡ some p
    → StandsAt s id p
unfolding index_from_assumed_id_no_cache
no_cache-StandsAt s id p h found =
    elim (or_else-some (get id s.index_from_assumed_id_cache) _ p found) [
      | inl in_cache ↦ h.cached id p in_cache
      | inr searched ↦ find_index_sound s id p h.distinct searched
    ]

no_cache-some :
    (s : IdxSpace) (id : ℕ) (subty : SpaceSubtype) (idx j : ℕ)
    → get_elem? (slot s subty idx) j ≡ some id
    → (p : Place) × (index_from_assumed_id_no_cache s id ≡ some p)
unfolding index_from_assumed_id_no_cache
no_cache-some s id subty idx j at =
    let (p, found) = find_index_complete s id subty idx j at in
    elim (Option-cases (get id s.index_from_assumed_id_cache)) [
      | inr (q, in_cache) ↦ (q, rw in_cache refl)
      | inl missing ↦ (p, rw missing found)
    ]

-- In a valid space an ID that stands somewhere is found there: the lookup gives the vector, the
-- index and the position within the entry.
pub index_from_assumed_id-at :
    (s : IdxSpace) (id : ℕ) (subty : SpaceSubtype) (idx j : ℕ)
    → IsValid s
    → get_elem? (slot s subty idx) j ≡ some id
    → (o : Option ℕ) × ((index_from_assumed_id s id).0 ≡ some (subty, (idx, o))) × (position o ≡ j)
index_from_assumed_id-at s id subty idx j h at =
    let ((v, (i, o)), found) = no_cache-some s id subty idx j at in
    let there = no_cache-StandsAt s id (v, (i, o)) h found in
    let (vector, index, place) = h.unique id v subty i idx (position o) j there at in
    (
      o,
      index_from_assumed_id-no_cache s id
          ∙ (found ∙ ap (λ a. some (a, (i, o))) vector ∙ ap (λ b. some (subty, (b, o))) index),
      place,
    )

-- In a valid space an ID that was not given out is not found.
index_from_assumed_id-none :
    (s : IdxSpace) (id : ℕ) → IsValid s → s.current_id ≤ id → (index_from_assumed_id s id).0 ≡ none
index_from_assumed_id-none s id h ge = elim (Option-cases (index_from_assumed_id_no_cache s id)) [
  | inl nowhere ↦ index_from_assumed_id-no_cache s id ∙ nowhere
  | inr (p, found) ↦
      absurd (
        omega (arith, ge, h.below p.0 p.1.0 (position p.1.1) id (no_cache-StandsAt s id p h found)))
]

-- In a valid space the ID that `assign_assumed_id` gives to an item is then found at the vector
-- of the item's section, at the item's index, behind the IDs that the entry had.
pub index_from_assumed_id-assign :
    (s : IdxSpace) (section : ComponentSection) (v : ℕ)
    → IsValid s
    → (o : Option ℕ) × ((index_from_assumed_id
          (assign_assumed_id s section v).1
          (assign_assumed_id s section v).0).0
        ≡ some (subtype_of section, (v, o)))
      × (position o ≡ length (slot s (subtype_of section) v))
unfolding assign_assumed_id
index_from_assumed_id-assign s section v h =
    index_from_assumed_id-at (assign_assumed_id s section v).1 s.current_id (subtype_of section) v
      (length (slot s (subtype_of section) v)) (assign_assumed_id-IsValid s section v h)
      (rw (assign-slot_self s section v)
        (get_elem?-append_self (slot s (subtype_of section) v) s.current_id []))
