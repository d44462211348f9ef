-- ===== src/TypeSection/Equality.antt =====
-- `PartialEq for Types` (ir/module/module_types.rs): what it compares.
use wirm.Base.{
  arith, ◌≡◌, ◌↔◌, refl, sym, ap, ◌∙◌, Bool, true, false, ◌&&◌, Option, none, some, List, [], ◌∷◌,
}
use wirm.Body.{DataType, same_type, same_bool, payload_of}
use wirm.Body.Laws.{same_type-eq, same_bool-eq, and-true}
use wirm.TypeSection.{
  Attrs, Types, func_type, array_type, struct_type, cont_type, same_list, same_option, same_attrs,
  same_types,
}

all-true : (a b c : Bool) → (a && b && c) ≡ true → (a ≡ true) × (b ≡ true) × (c ≡ true)
all-true a b c h =
    let (ab, third) = and-true (a && b) c h in
    let (first, second) = and-true a b ab in (first, second, third)

-- A test that tells equal from different.
abbrev pub IsEquality : {A : Type 0} → (A → A → Bool) → Type 0
IsEquality {A} same = ((a b : A) → same a b ≡ true → a ≡ b) × ((a : A) → same a a ≡ true)

same_bool_refl : (a : Bool) → same_bool a a ≡ true
same_bool_refl true = refl
same_bool_refl false = refl

same_bool-IsEquality : IsEquality same_bool
same_bool-IsEquality = (same_bool-eq, same_bool_refl)

same_type_refl : (a : DataType) → same_type a a ≡ true
unfolding same_type
same_type_refl a = ground (arith, same_bool_refl (payload_of a).1)

same_type-IsEquality : IsEquality same_type
same_type-IsEquality = (same_type-eq, same_type_refl)

module _ {A : Type 0} {same : A → A → Bool} (eq : IsEquality same) where
  same_list-eq : (xs ys : List A) → same_list same xs ys ≡ true → xs ≡ ys
  unfolding same_list
  same_list-eq [] [] h = refl
  same_list-eq [] (y ∷ ys) h = ground arith
  same_list-eq (x ∷ xs) [] h = ground arith
  same_list-eq (x ∷ xs) (y ∷ ys) h =
      let (first, rest) = and-true (same x y) (same_list same xs ys) h in
      λ i. eq.0 x y first i ∷ same_list-eq xs ys rest i

  same_list_refl : (xs : List A) → same_list same xs xs ≡ true
  unfolding same_list
  same_list_refl [] = refl
  same_list_refl (x ∷ xs) = rw (eq.1 x) (same_list_refl xs)

  same_option-eq : (a b : Option A) → same_option same a b ≡ true → a ≡ b
  unfolding same_option
  same_option-eq none none h = refl
  same_option-eq none (some y) h = ground arith
  same_option-eq (some x) none h = ground arith
  same_option-eq (some x) (some y) h = ap some (eq.0 x y h)

  same_option_refl : (a : Option A) → same_option same a a ≡ true
  unfolding same_option
  same_option_refl none = refl
  same_option_refl (some x) = eq.1 x

-- A type without what the comparison leaves out.
abbrev pub forget_attrs : {P : Type 0} → Attrs P → Attrs P
forget_attrs a = record a { descriptor = none; describes = none; tag = none }

unfoldable pub forget : {P : Type 0} → Types P → Types P
forget (func_type params results a) = func_type params results (forget_attrs a)
forget (array_type fields mutable a) = array_type fields mutable (forget_attrs a)
forget (struct_type fields mutable a) = struct_type fields mutable (forget_attrs a)
forget (cont_type packed_index a) = cont_type packed_index (forget_attrs a)

module _ {P : Type 0} {same_index : P → P → Bool} (index : IsEquality same_index) where
  same_attrs-eq :
      (a b : Attrs P) → same_attrs same_index a b ≡ true → forget_attrs a ≡ forget_attrs b
  unfolding same_attrs
  same_attrs-eq a b h =
      let (super, final, shared) =
        all-true (same_option same_index a.super_type b.super_type)
          (same_bool a.is_final b.is_final) (same_bool a.shared b.shared) h in
      let super_eq = same_option-eq index a.super_type b.super_type super in
      let final_eq = same_bool-eq a.is_final b.is_final final in
      let shared_eq = same_bool-eq a.shared b.shared shared in
      λ i. record {
        super_type = super_eq i;
        is_final = final_eq i;
        shared = shared_eq i;
        descriptor = none;
        describes = none;
        tag = none;
      }

  same_attrs_refl : (a : Attrs P) → same_attrs same_index a a ≡ true
  unfolding same_attrs
  same_attrs_refl a =
      rw (same_option_refl index a.super_type, same_bool_refl a.is_final, same_bool_refl a.shared)
        refl

  same_types-eq : (a b : Types P) → same_types same_index a b ≡ true → forget a ≡ forget b
  unfolding same_types forget
  same_types-eq (func_type params results a) (func_type params1 results1 a1) h =
      let (ps, rs, attrs) =
        all-true (same_list same_type params params1) (same_list same_type results results1)
          (same_attrs same_index a a1) h in
      λ i.
        func_type (same_list-eq same_type-IsEquality params params1 ps i)
          (same_list-eq same_type-IsEquality results results1 rs i) (same_attrs-eq a a1 attrs i)
  same_types-eq (array_type fields mutable a) (array_type fields1 mutable1 a1) h =
      let (fs, ms, attrs) =
        all-true (same_type fields fields1) (same_bool mutable mutable1)
          (same_attrs same_index a a1) h in
      λ i.
        array_type (same_type-eq fields fields1 fs i) (same_bool-eq mutable mutable1 ms i)
          (same_attrs-eq a a1 attrs i)
  same_types-eq (struct_type fields mutable a) (struct_type fields1 mutable1 a1) h =
      let (fs, ms, attrs) =
        all-true (same_list same_type fields fields1) (same_list same_bool mutable mutable1)
          (same_attrs same_index a a1) h in
      λ i.
        struct_type (same_list-eq same_type-IsEquality fields fields1 fs i)
          (same_list-eq same_bool-IsEquality mutable mutable1 ms i) (same_attrs-eq a a1 attrs i)
  same_types-eq (cont_type packed_index a) (cont_type packed_index1 a1) h =
      let (ps, attrs) =
        and-true (same_index packed_index packed_index1) (same_attrs same_index a a1) h in
      λ i. cont_type (index.0 packed_index packed_index1 ps i) (same_attrs-eq a a1 attrs i)
  same_types-eq _ _ h = ground arith

  same_types_refl : (a : Types P) → same_types same_index a a ≡ true
  unfolding same_types
  same_types_refl (func_type params results a) =
      rw
        (
          same_list_refl same_type-IsEquality params,
          same_list_refl same_type-IsEquality results,
          same_attrs_refl a,
        )
        refl
  same_types_refl (array_type fields mutable a) =
      rw (same_type_refl fields, same_bool_refl mutable, same_attrs_refl a) refl
  same_types_refl (struct_type fields mutable a) =
      rw
        (
          same_list_refl same_type-IsEquality fields,
          same_list_refl same_bool-IsEquality mutable,
          same_attrs_refl a,
        )
        refl
  same_types_refl (cont_type packed_index a) = rw (index.1 packed_index, same_attrs_refl a) refl

  same_types-forget :
      (a b : Types P) → same_types same_index (forget a) (forget b) ≡ same_types same_index a b
  unfolding same_types forget same_attrs
  same_types-forget (func_type params results a) (func_type params1 results1 a1) = refl
  same_types-forget (array_type fields mutable a) (array_type fields1 mutable1 a1) = refl
  same_types-forget (struct_type fields mutable a) (struct_type fields1 mutable1 a1) = refl
  same_types-forget (cont_type packed_index a) (cont_type packed_index1 a1) = refl
  same_types-forget _ _ = ground arith

  -- Where packed indices are compared by equality, two types are equal to the type section
  -- exactly if they agree in all but the tag, the descriptor and what they describe.
  pub same_types_iff : (a b : Types P) → (same_types same_index a b ≡ true) ↔ (forget a ≡ forget b)
  same_types_iff a b = (
    same_types-eq a b,
    λ e.
        sym (same_types-forget a b)
        ∙ ap (λ t. same_types same_index t (forget b)) e
        ∙ same_types_refl (forget b),
  )

  pub same_types-right :
      (key a b : Types P)
      → forget a ≡ forget b
      → same_types same_index key a ≡ same_types same_index key b
  same_types-right key a b e =
      sym (same_types-forget key a)
      ∙ ap (λ t. same_types same_index (forget key) t) e
      ∙ same_types-forget key b

  pub same_types-left :
      (a b key : Types P)
      → forget a ≡ forget b
      → same_types same_index a key ≡ same_types same_index b key
  same_types-left a b key e =
      sym (same_types-forget a key)
      ∙ ap (λ t. same_types same_index t (forget key)) e
      ∙ same_types-forget b key
