-- ===== src/IdxSpace/Search.antt =====
-- The search of an `IdxSpace` for an ID finds a place where it stands, and finds one where there is one.
use wirm.Base.{
  ℕ, ◌≡◌, ◌⊎◌, refl, sym, ◌∙◌, subst, Option, none, some, get_elem?, inl, inr, Option-cases,
  IsDistinct,
}
use wirm.Space.{SpaceSubtype, exported, imported, aliased, main}
use wirm.IdxSpace.{IdxSpace, Place, ids_of, find_index, find_in, or_else}
use wirm.IdxSpace.Slots.{slot, position, keys, find_in_sound, find_in_complete}

-- Item `id` of the space stands at `p`.
abbrev pub StandsAt : IdxSpace → ℕ → Place → Type 0
StandsAt s id p = get_elem? (slot s p.0 p.1.0) (position p.1.1) ≡ some id

pub or_else-some :
    (a b : Option Place) (p : Place) → or_else a b ≡ some p → (a ≡ some p) ⊎ (b ≡ some p)
or_else-some none b p h = inr h
or_else-some (some q) b p h = inl h

or_else-none : (a b : Option Place) → or_else a b ≡ none → (a ≡ none) × (b ≡ none)
or_else-none none b h = (refl, h)
or_else-none (some q) b h = cc

find_in-StandsAt :
    (s : IdxSpace) (subty : SpaceSubtype) (id : ℕ) (p : Place)
    → IsDistinct (keys (ids_of s subty))
    → find_in subty (ids_of s subty) id ≡ some p
    → StandsAt s id p
find_in-StandsAt s subty id p distinct h =
    let (vector, at) = find_in_sound subty (ids_of s subty) id p distinct h in
    subst (λ v. get_elem? (slot s v p.1.0) (position p.1.1) ≡ some id) (sym vector) at

pub find_index_sound :
    (s : IdxSpace) (id : ℕ) (p : Place)
    → ((subty : SpaceSubtype) → IsDistinct (keys (ids_of s subty)))
    → find_index s id ≡ some p
    → StandsAt s id p
unfolding find_index
find_index_sound s id p distinct h = elim (or_else-some _ _ p h) [
  | inl found ↦ find_in-StandsAt s main id p (distinct main) found
  | inr h' ↦ elim (or_else-some _ _ p h') [
    | inl found ↦ find_in-StandsAt s imported id p (distinct imported) found
    | inr h'' ↦ elim (or_else-some _ _ p h'') [
      | inl found ↦ find_in-StandsAt s exported id p (distinct exported) found
      | inr found ↦ find_in-StandsAt s aliased id p (distinct aliased) found
    ]
  ]
]

-- No map has the ID where the search fails.
find_index-none :
    (s : IdxSpace) (id : ℕ)
    → find_index s id ≡ none
    → (subty : SpaceSubtype) → find_in subty (ids_of s subty) id ≡ none
unfolding find_index
find_index-none s id h subty =
    let (in_main, h') = or_else-none (find_in main (ids_of s main) id) _ h in
    let (in_imports, h'') = or_else-none (find_in imported (ids_of s imported) id) _ h' in
    let (in_exports, in_aliases) = or_else-none (find_in exported (ids_of s exported) id) _ h'' in
    elim subty as (λ v. find_in v (ids_of s v) id ≡ none) [
      | main ↦ in_main
      | imported ↦ in_imports
      | exported ↦ in_exports
      | aliased ↦ in_aliases
    ]

pub find_index_complete :
    (s : IdxSpace) (id : ℕ) (subty : SpaceSubtype) (idx j : ℕ)
    → get_elem? (slot s subty idx) j ≡ some id
    → (p : Place) × (find_index s id ≡ some p)
find_index_complete s id subty idx j h = elim (Option-cases (find_index s id)) [
  | inr found ↦ found
  | inl missing ↦
      let (p, found) = find_in_complete subty (ids_of s subty) id idx j h in
      absurd (let e : none ≡ some p = sym (find_index-none s id missing subty) ∙ found in cc)
]
