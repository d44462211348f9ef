-- ===== src/TypeSection/Tests.antt =====
-- The type section on small modules; a packed index is a number here.
use wirm.Base.{
  ℕ, ◌≡◌, ◌≤◌, ◌↔◌, refl, true, false, arith, Option, none, some, [], ◌∷◌, ◌==◌, ==_iff,
}
use wirm.Base.Maps.{HashMap, get}
use wirm.Base.Results.{ok}
use wirm.Body.{i32, i64, same_type}
use wirm.TypeSection.{Types, func_type, ModuleTypes, new, add_type, same_types, find_type}
use wirm.TypeSection.Forms.{add_func_type, default_tag}
use wirm.TypeSection.Equality.{IsEquality, forget, same_types_iff}
use wirm.TypeSection.Laws.{IsValid, add_type-IsValid, add_type-keeps, add_type-again}
use wirm.TypeSection.Parsed.{new-IsValid}

==-IsEquality : IsEquality ◌==◌
==-IsEquality = (λ a b h. (==_iff a b).0 h, λ a. (==_iff a a).1 refl)

abbrev with_descriptor : Option ℕ → Types ℕ
with_descriptor descriptor = func_type (i32 ∷ []) [] (record {
  super_type = none;
  is_final = true;
  shared = false;
  descriptor = descriptor;
  describes = none;
  tag = none;
})

abbrev no_types : ModuleTypes ℕ
no_types = record { groups = []; types = []; types_map = [] }

abbrev parsed : HashMap (Types ℕ)
parsed = (1, with_descriptor (some 7)) ∷ (0, with_descriptor none) ∷ []

abbrev one_type : ModuleTypes ℕ
one_type = record {
  groups = record { types = 0 ∷ []; is_explicit = false } ∷ [];
  types = (0, with_descriptor none) ∷ [];
  types_map = (with_descriptor none, 0) ∷ [];
}

-- The same type with another descriptor has the same ID.
descriptor_run : (add_type ◌==◌ one_type (with_descriptor (some 7)) 1).0 ≡ 0
unfolding add_type same_type
descriptor_run = refl

-- Two function types, the first one twice.
add_func_type_run :
    (add_func_type ◌==◌
      (add_func_type ◌==◌ one_type (i64 ∷ []) [] default_tag).1
      (i32 ∷ [])
      []
      default_tag).0
    ≡ 0
unfolding add_func_type same_type
add_func_type_run = refl

no_types-IsValid : IsValid ==-IsEquality no_types
unfolding get find_type
no_types-IsValid = record {
  fresh = λ id h. refl;
  sound = λ ty id h. ground arith;
  complete = λ id ty h. ground arith;
}

one_type-IsValid : IsValid ==-IsEquality one_type
unfolding add_type
one_type-IsValid =
    (add_type-IsValid ==-IsEquality no_types (with_descriptor none) no_types-IsValid).0

abbrev of_i64 : Types ℕ
of_i64 = func_type (i64 ∷ []) [] (record {
  super_type = some 0;
  is_final = false;
  shared = false;
  descriptor = none;
  describes = none;
  tag = some default_tag;
})

one_type_has : get 0 one_type.types ≡ some (with_descriptor none)
unfolding add_type get
one_type_has = refl

alike : forget (with_descriptor none) ≡ forget (with_descriptor (some 7))
unfolding forget
alike = refl

parsed_fresh : (id : ℕ) → 2 ≤ id → get id parsed ≡ none
unfolding get
parsed_fresh id h =
    let one : (1 == id) ≡ false = ground arith in
    let zero' : (0 == id) ≡ false = ground arith in rw (one, zero') refl

same_types_iff_example :
    (same_types ◌==◌ (with_descriptor none) (with_descriptor (some 7)) ≡ true)
    ↔ (forget (with_descriptor none) ≡ forget (with_descriptor (some 7)))
same_types_iff_example =
    same_types_iff ==-IsEquality (with_descriptor none) (with_descriptor (some 7))

add_type-IsValid_example :
    IsValid ==-IsEquality (add_type ◌==◌ one_type of_i64 1).1
    × ((ty' : Types ℕ) × (get
            (add_type ◌==◌ one_type of_i64 1).0
            (add_type ◌==◌ one_type of_i64 1).1.types
          ≡ some ty')
        × (forget ty' ≡ forget of_i64))
add_type-IsValid_example = add_type-IsValid ==-IsEquality one_type of_i64 one_type-IsValid

add_type-keeps_example :
    get 0 (add_type ◌==◌ one_type of_i64 1).1.types ≡ some (with_descriptor none)
add_type-keeps_example =
    add_type-keeps ==-IsEquality one_type of_i64 (with_descriptor none) 0 one_type-IsValid
      one_type_has

add_type-again_example :
    add_type ◌==◌ (add_type ◌==◌ no_types (with_descriptor none) 0).1 (with_descriptor (some 7)) 1
    ≡ add_type ◌==◌ no_types (with_descriptor none) 0
add_type-again_example =
    add_type-again ==-IsEquality no_types (with_descriptor none) (with_descriptor (some 7)) 0 1
      alike

new-IsValid_example :
    (m : ModuleTypes ℕ) × (new ◌==◌ [] parsed ≡ ok m) × (m.types ≡ parsed) × IsValid ==-IsEquality m
new-IsValid_example = new-IsValid ==-IsEquality parsed [] parsed_fresh
