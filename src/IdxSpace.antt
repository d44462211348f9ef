-- ===== src/IdxSpace.antt =====
-- ir/component/idx_spaces.rs: `IdxSpace`, one index space of a scope. An item of the space stands
-- at an index of one of four vectors; the space gives each the next assumed ID and finds it again.
pub mod Slots
pub mod Search
pub mod Caching
pub mod Assign
pub mod Laws
mod Tests
use wirm.Base.{ℕ, suc, Option, none, some, List, [], ◌∷◌, ◌++◌, get_elem?, ◌==◌, if◌then◌else◌}
use wirm.Base.Maps.{HashMap, get, insert}
use wirm.Base.Results.{Result, ok, panic, or_panic, ◌>>=◌}
use wirm.Space.{ComponentSection, SpaceSubtype, exported, imported, aliased, main}

-- The IDs of an index: one, or one for each of several (a rec group has an ID for each subtype).
pub data AssumedIdForIdx : Type 0 where
  single : ℕ → AssumedIdForIdx
  multiple : List ℕ → AssumedIdForIdx

-- The first position of an ID in a list of them, counted from `idx`.
unfoldable find_id : List ℕ → ℕ → ℕ → Option ℕ
find_id [] assumed_id idx = none
find_id (id ∷ ids) assumed_id idx =
    if id == assumed_id then some idx else find_id ids assumed_id (suc idx)

abbrev at_sub : Option ℕ → Option (Option ℕ)
at_sub none = none
at_sub (some idx) = some (some idx)

-- `none` for no match; the position within the entry where it holds several IDs.
unfoldable matches : AssumedIdForIdx → ℕ → Option (Option ℕ)
unfolding find_id
matches (single my_id) assumed_id = if my_id == assumed_id then some none else none
matches (multiple sub_ids) assumed_id = at_sub (find_id sub_ids assumed_id 0)

unfoldable append : AssumedIdForIdx → ℕ → AssumedIdForIdx
append (single my_id) assumed_id = multiple (my_id ∷ assumed_id ∷ [])
append (multiple sub_ids) assumed_id = multiple (sub_ids ++ assumed_id ∷ [])

unfoldable unwrap_single : AssumedIdForIdx → Result ℕ
unwrap_single (single my_id) = ok my_id
unwrap_single (multiple sub_ids) = panic

unfoldable unwrap_for_idx : AssumedIdForIdx → ℕ → Result ℕ
unwrap_for_idx (single my_id) subvec_idx = ok my_id
unwrap_for_idx (multiple subvec) subvec_idx = or_panic (get_elem? subvec subvec_idx)

-- Where an item stands: the vector, the index in it, the position within that entry.
abbrev pub Place : Type 0
Place = SpaceSubtype × (ℕ × Option ℕ)

pub record IdxSpace : Type 0 where
  pub current_id : ℕ
  main_assumed_ids : HashMap AssumedIdForIdx
  alias_assumed_ids : HashMap AssumedIdForIdx
  imports_assumed_ids : HashMap AssumedIdForIdx
  exports_assumed_ids : HashMap AssumedIdForIdx
  index_from_assumed_id_cache : HashMap Place

abbrev pub default_space : IdxSpace
default_space = record {
  current_id = 0;
  main_assumed_ids = [];
  alias_assumed_ids = [];
  imports_assumed_ids = [];
  exports_assumed_ids = [];
  index_from_assumed_id_cache = [];
}

-- The vector that each section's items stand in: the `match section` of every operation.
unfoldable pub subtype_of : ComponentSection → SpaceSubtype
subtype_of ComponentSection.component_import = imported
subtype_of ComponentSection.component_export = exported
subtype_of ComponentSection.alias_section = aliased
subtype_of _ = main

unfoldable pub ids_of : IdxSpace → SpaceSubtype → HashMap AssumedIdForIdx
ids_of s main = s.main_assumed_ids
ids_of s imported = s.imports_assumed_ids
ids_of s exported = s.exports_assumed_ids
ids_of s aliased = s.alias_assumed_ids

unfoldable with_ids : IdxSpace → SpaceSubtype → HashMap AssumedIdForIdx → IdxSpace
with_ids s main m = record s { main_assumed_ids = m }
with_ids s imported m = record s { imports_assumed_ids = m }
with_ids s exported m = record s { exports_assumed_ids = m }
with_ids s aliased m = record s { alias_assumed_ids = m }

-- `None` where the vector has no ID at that index; a panic where it has several.
-- `map` over the entry found, with an `unwrap` that may panic.
abbrev unwrapped : (AssumedIdForIdx → Result ℕ) → Option AssumedIdForIdx → Result (Option ℕ)
unwrapped unwrap none = ok none
unwrapped unwrap (some res) = unwrap res >>= λ id. ok (some id)

-- `None` where the vector has no ID at that index; a panic where it has several.
unfoldable pub lookup_assumed_id : IdxSpace → ComponentSection → ℕ → Result (Option ℕ)
unfolding ids_of subtype_of unwrap_single
lookup_assumed_id s section vec_idx =
    unwrapped unwrap_single (get vec_idx (ids_of s (subtype_of section)))

unfoldable pub lookup_assumed_id_with_subvec :
    IdxSpace → ComponentSection → ℕ → ℕ → Result (Option ℕ)
unfolding ids_of subtype_of unwrap_for_idx
lookup_assumed_id_with_subvec s section vec_idx subvec_idx =
    unwrapped (λ res. unwrap_for_idx res subvec_idx) (get vec_idx (ids_of s (subtype_of section)))

abbrev placed : SpaceSubtype → ℕ → Option (Option ℕ) → Option Place
placed subty idx none = none
placed subty idx (some opt_subidx) = some (subty, (idx, opt_subidx))

abbrev or_else : Option Place → Option Place → Option Place
or_else none b = b
or_else (some p) b = some p

-- The loop of `index_from_assumed_id_no_cache` over the entries of one map.
unfoldable find_in : SpaceSubtype → HashMap AssumedIdForIdx → ℕ → Option Place
unfolding matches
find_in subty [] assumed_id = none
find_in subty ((idx, assumed) ∷ map) assumed_id =
    or_else (placed subty idx (matches assumed assumed_id)) (find_in subty map assumed_id)

-- The same through the four maps, in the order of the array `maps`.
unfoldable find_index : IdxSpace → ℕ → Option Place
unfolding find_in ids_of
find_index s assumed_id = or_else (find_in main (ids_of s main) assumed_id) (
    or_else (find_in imported (ids_of s imported) assumed_id) (
      or_else (find_in exported (ids_of s exported) assumed_id)
        (find_in aliased (ids_of s aliased) assumed_id)))

unfoldable pub index_from_assumed_id_no_cache : IdxSpace → ℕ → Option Place
unfolding find_index
index_from_assumed_id_no_cache s assumed_id =
    or_else (get assumed_id s.index_from_assumed_id_cache) (find_index s assumed_id)

-- A result, and the space that has it in its cache.
abbrev Cached : Type 0
Cached = Option (Place × IdxSpace)

-- `self.index_from_assumed_id_cache.insert(assumed_id, result)`, and the early return of the result.
abbrev cache_result : IdxSpace → ℕ → SpaceSubtype → ℕ → Option ℕ → Cached
cache_result s assumed_id subty idx opt_subidx = some (
  (subty, (idx, opt_subidx)),
  record s {
    index_from_assumed_id_cache =
        insert assumed_id (subty, (idx, opt_subidx)) s.index_from_assumed_id_cache;
  },
)

abbrev cached_or_else : Cached → Cached → Cached
cached_or_else none rest = rest
cached_or_else (some found) rest = some found

abbrev cache_match : IdxSpace → ℕ → SpaceSubtype → ℕ → Option (Option ℕ) → Cached
cache_match s assumed_id subty idx none = none
cache_match s assumed_id subty idx (some opt_subidx) =
    cache_result s assumed_id subty idx opt_subidx

-- The loop of `index_from_assumed_id` over the entries of one map.
unfoldable search_in : IdxSpace → ℕ → SpaceSubtype → HashMap AssumedIdForIdx → Cached
unfolding matches
search_in s assumed_id subty [] = none
search_in s assumed_id subty ((idx, assumed) ∷ map) =
    cached_or_else (cache_match s assumed_id subty idx (matches assumed assumed_id))
      (search_in s assumed_id subty map)

-- Its array `maps`.
abbrev maps_of : IdxSpace → List (SpaceSubtype × HashMap AssumedIdForIdx)
maps_of s =
    (main, s.main_assumed_ids)
    ∷ (imported, s.imports_assumed_ids)
    ∷ (exported, s.exports_assumed_ids)
    ∷ (aliased, s.alias_assumed_ids)
    ∷ []

-- The loop over such an array.
unfoldable search_maps : IdxSpace → ℕ → List (SpaceSubtype × HashMap AssumedIdForIdx) → Cached
unfolding search_in
search_maps s assumed_id [] = none
search_maps s assumed_id ((subty, map) ∷ maps) =
    cached_or_else (search_in s assumed_id subty map) (search_maps s assumed_id maps)

abbrev returned : IdxSpace → Cached → Option Place × IdxSpace
returned s none = (none, s)
returned s (some (result, s')) = (some result, s')

abbrev cached_or : IdxSpace → ℕ → Option Place → Option Place × IdxSpace
cached_or s assumed_id (some cached_data) = (some cached_data, s)
cached_or s assumed_id none = returned s (search_maps s assumed_id (maps_of s))

unfoldable pub index_from_assumed_id : IdxSpace → ℕ → Option Place × IdxSpace
unfolding search_maps
index_from_assumed_id s assumed_id =
    cached_or s assumed_id (get assumed_id s.index_from_assumed_id_cache)

abbrev modify_or_single : ℕ → Option AssumedIdForIdx → AssumedIdForIdx
modify_or_single assumed_id none = single assumed_id
modify_or_single assumed_id (some entry) = append entry assumed_id

-- `entry(vec_idx).and_modify(append).or_insert(Single)`.
unfoldable add_id : HashMap AssumedIdForIdx → ℕ → ℕ → HashMap AssumedIdForIdx
unfolding append
add_id m vec_idx assumed_id = insert vec_idx (modify_or_single assumed_id (get vec_idx m)) m

unfoldable pub assign_assumed_id : IdxSpace → ComponentSection → ℕ → ℕ × IdxSpace
unfolding with_ids ids_of subtype_of add_id
assign_assumed_id s section vec_idx =
    let assumed_id = s.current_id in
    let s' = record s { current_id = suc s.current_id } in
    let subty = subtype_of section in
    (assumed_id, with_ids s' subty (add_id (ids_of s' subty) vec_idx assumed_id))
