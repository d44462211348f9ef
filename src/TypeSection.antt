-- ===== src/TypeSection.antt =====
-- ir/module/module_types.rs: the types of a module. `P` is wasmparser's `PackedIndex`, with its
-- equality and `from_module_index`.
pub mod Equality
pub mod Laws
pub mod Forms
pub mod Parsed
mod Tests
use wirm.Base.{
  ℕ, Bool, true, false, ◌&&◌, Option, none, some, List, [], ◌∷◌, ◌++◌, length, ltb, if◌then◌else◌,
}
use wirm.Base.Maps.{HashMap, get, insert}
use wirm.Base.Results.{Result, ok, or_panic, ◌>>=◌}
use wirm.Instr.{Tag}
use wirm.Body.{DataType, same_type, same_bool}

pub record RecGroup : Type 0 where
  pub types : List ℕ
  pub is_explicit : Bool

-- The fields that every variant of `Types` has.
pub record Attrs (P : Type 0) : Type 0 where
  pub super_type : Option P
  pub is_final : Bool
  pub shared : Bool
  pub descriptor : Option ℕ
  pub describes : Option ℕ
  pub tag : Option Tag

pub data Types (P : Type 0) : Type 0 where
  func_type : List DataType → List DataType → Attrs P → Types P
  array_type : DataType → Bool → Attrs P → Types P
  struct_type : List DataType → List Bool → Attrs P → Types P
  cont_type : P → Attrs P → Types P

unfoldable pub same_list : {A : Type 0} → (A → A → Bool) → List A → List A → Bool
same_list same [] [] = true
same_list same (x ∷ xs) (y ∷ ys) = same x y && same_list same xs ys
same_list same _ _ = false

unfoldable pub same_option : {A : Type 0} → (A → A → Bool) → Option A → Option A → Bool
same_option same none none = true
same_option same (some x) (some y) = same x y
same_option same _ _ = false

pub record ModuleTypes (P : Type 0) : Type 0 where
  pub groups : List RecGroup
  pub types : HashMap (Types P)
  pub types_map : List (Types P × ℕ)

-- `sort` on the IDs.
unfoldable pub insert_id : ℕ → List ℕ → List ℕ
insert_id id [] = id ∷ []
insert_id id (other ∷ rest) = if ltb other id then other ∷ insert_id id rest else id ∷ other ∷ rest

unfoldable pub sorted_ids : {V : Type 0} → HashMap V → List ℕ
unfolding insert_id
sorted_ids [] = []
sorted_ids ((id, ty) ∷ rest) = insert_id id (sorted_ids rest)

module _ {P : Type 0} (same_index : P → P → Bool) where
  unfoldable pub same_attrs : Attrs P → Attrs P → Bool
  unfolding same_option
  same_attrs a b =
      same_option same_index a.super_type b.super_type
      && same_bool a.is_final b.is_final
      && same_bool a.shared b.shared

  -- `PartialEq for Types`
  unfoldable pub same_types : Types P → Types P → Bool
  unfolding same_attrs same_list
  same_types (func_type params results a) (func_type params1 results1 a1) =
      same_list same_type params params1 && same_list same_type results results1 && same_attrs a a1
  same_types (array_type fields mutable a) (array_type fields1 mutable1 a1) =
      same_type fields fields1 && same_bool mutable mutable1 && same_attrs a a1
  same_types (struct_type fields mutable a) (struct_type fields1 mutable1 a1) =
      same_list same_type fields fields1 && same_list same_bool mutable mutable1 && same_attrs a a1
  same_types (cont_type packed_index a) (cont_type packed_index1 a1) =
      same_index packed_index packed_index1 && same_attrs a a1
  same_types _ _ = false

  -- A look-up in `types_map`, by this equality.
  unfoldable pub find_type : Types P → List (Types P × ℕ) → Option ℕ
  unfolding same_types
  find_type ty [] = none
  find_type ty ((key, id) ∷ rest) = if same_types key ty then some id else find_type ty rest

  -- `HashMap::insert`, which keeps the key that is there.
  unfoldable pub insert_type : Types P → ℕ → List (Types P × ℕ) → List (Types P × ℕ)
  unfolding same_types
  insert_type ty id [] = (ty, id) ∷ []
  insert_type ty id ((key, old) ∷ rest) =
      if same_types key ty then (key, id) ∷ rest else (key, old) ∷ insert_type ty id rest

  -- The loop of `new` over the sorted IDs.
  unfoldable pub map_types :
      List ℕ → HashMap (Types P) → List (Types P × ℕ) → Result (List (Types P × ℕ))
  unfolding insert_type get
  map_types [] types types_map = ok types_map
  map_types (id ∷ ids) types types_map = do
    ty ← or_panic (get id types)
    map_types ids types (insert_type ty id types_map)

  unfoldable pub new : List RecGroup → HashMap (Types P) → Result (ModuleTypes P)
  unfolding map_types sorted_ids
  new groups types = do
    types_map ← map_types (sorted_ids types) types []
    ok (record { groups = groups; types = types; types_map = types_map })

  -- What `add_type` does by what the look-up gave.
  unfoldable pub add_found : Option ℕ → ModuleTypes P → Types P → ℕ → ℕ × ModuleTypes P
  unfolding insert_type insert
  add_found (some ty_id) m ty id = (ty_id, m)
  add_found none m ty id = (
    id,
    record {
      groups = m.groups ++ record { types = id ∷ []; is_explicit = false } ∷ [];
      types = insert id ty m.types;
      types_map = insert_type ty id m.types_map;
    },
  )

  unfoldable pub add_type : ModuleTypes P → Types P → ℕ → ℕ × ModuleTypes P
  unfolding add_found find_type
  add_type m ty id = add_found (find_type ty m.types_map) m ty id
