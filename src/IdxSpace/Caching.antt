-- ===== src/IdxSpace/Caching.antt =====
-- The two searches of an `IdxSpace`, the one that fills the cache and the one that does not, find
-- the same place.
use wirm.Base.{ℕ, ◌≡◌, refl, ap, ◌∙◌, Option, none, some, [], ◌∷◌, inl, inr, Option-cases}
use wirm.Base.Maps.{HashMap, insert}
use wirm.Space.{SpaceSubtype, exported, imported, aliased, main}
use wirm.IdxSpace.{
  AssumedIdForIdx, IdxSpace, Place, Cached, ids_of, find_index, find_in, or_else, matches,
  search_in, search_maps, cached_or_else, maps_of,
}

-- The search that fills the cache finds what the other one finds.
abbrev pub caching : IdxSpace → ℕ → Option Place → Option (Place × IdxSpace)
caching s id none = none
caching s id (some p) =
    some (p, record s { index_from_assumed_id_cache = insert id p s.index_from_assumed_id_cache })

search_in-find_in :
    (s : IdxSpace) (id : ℕ) (subty : SpaceSubtype) (map : HashMap AssumedIdForIdx)
    → search_in s id subty map ≡ caching s id (find_in subty map id)
unfolding search_in find_in
search_in-find_in s id subty [] = refl
search_in-find_in s id subty ((idx, assumed) ∷ map) = elim (Option-cases (matches assumed id)) [
  | inl missing ↦ rw missing (search_in-find_in s id subty map)
  | inr (o, found) ↦ rw found refl
]

caching-or_else :
    (s : IdxSpace) (id : ℕ) (a b : Option Place)
    → cached_or_else (caching s id a) (caching s id b) ≡ caching s id (or_else a b)
caching-or_else s id none b = refl
caching-or_else s id (some p) b = refl

cached_or_else-none : (a : Cached) → cached_or_else a none ≡ a
cached_or_else-none none = refl
cached_or_else-none (some x) = refl

pub search_maps-find_index :
    (s : IdxSpace) (id : ℕ) → search_maps s id (maps_of s) ≡ caching s id (find_index s id)
unfolding search_maps find_index ids_of
search_maps-find_index s id =
    let m = find_in main s.main_assumed_ids id in
    let i = find_in imported s.imports_assumed_ids id in
    let e = find_in exported s.exports_assumed_ids id in
    let a = find_in aliased s.alias_assumed_ids id in
    rw
      (
        search_in-find_in s id main s.main_assumed_ids,
        search_in-find_in s id imported s.imports_assumed_ids,
        search_in-find_in s id exported s.exports_assumed_ids,
        search_in-find_in s id aliased s.alias_assumed_ids,
      )
      (ap (λ x. cached_or_else (caching s id m) (cached_or_else (caching s id i) x))
          (ap (cached_or_else (caching s id e)) (cached_or_else-none (caching s id a))
            ∙ caching-or_else s id e a)
        ∙ ap (cached_or_else (caching s id m)) (caching-or_else s id i (or_else e a))
        ∙ caching-or_else s id m (or_else i (or_else e a)))
