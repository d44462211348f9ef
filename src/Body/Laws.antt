-- ===== src/Body/Laws.antt =====
-- The runs of locals stand for the list of the locals' types, in the order in which they were added.
use wirm.Base.{
  ℕ, zero, suc, ◌+◌, ◌<◌, ◌≡◌, refl, sym, ap, ◌∙◌, Bool, true, false, some, List, [], ◌∷◌, ◌++◌,
  length, get_elem?, replicate, ◌&&◌, ◌==◌, ==_iff, arith, Bool-cases, inl, inr, length-append,
  length-replicate, get_elem?-append_self,
}
use mathlib.Core.List.{append_assoc, append-nil}
use wirm.Body.{
  DataType, module_type, rec_group, core_type_id, kind_of, payload_of, same_bool, same_type,
  locals_as_vec, extend_locals, add_local, add_locals, wrap32,
}

kind_of-injective : (a b : DataType) → kind_of a ≡ kind_of b → payload_of a ≡ payload_of b → a ≡ b
kind_of-injective (module_type n v) (module_type m w) h e = ap (λ p. module_type p.0 p.1) e
kind_of-injective (rec_group n) (rec_group m) h e = ap (λ p. rec_group p.0) e
kind_of-injective (core_type_id n) (core_type_id m) h e = ap (λ p. core_type_id p.0) e
kind_of-injective DataType.i8 DataType.i8 h e = refl
kind_of-injective DataType.i16 DataType.i16 h e = refl
kind_of-injective DataType.i32 DataType.i32 h e = refl
kind_of-injective DataType.i64 DataType.i64 h e = refl
kind_of-injective DataType.f32 DataType.f32 h e = refl
kind_of-injective DataType.f64 DataType.f64 h e = refl
kind_of-injective DataType.v128 DataType.v128 h e = refl
kind_of-injective DataType.func_ref DataType.func_ref h e = refl
kind_of-injective DataType.func_ref_null DataType.func_ref_null h e = refl
kind_of-injective DataType.extern_ref DataType.extern_ref h e = refl
kind_of-injective DataType.extern_ref_null DataType.extern_ref_null h e = refl
kind_of-injective DataType.any_type DataType.any_type h e = refl
kind_of-injective DataType.any_type_null DataType.any_type_null h e = refl
kind_of-injective DataType.none_type DataType.none_type h e = refl
kind_of-injective DataType.none_type_null DataType.none_type_null h e = refl
kind_of-injective DataType.no_extern DataType.no_extern h e = refl
kind_of-injective DataType.no_extern_null DataType.no_extern_null h e = refl
kind_of-injective DataType.no_func DataType.no_func h e = refl
kind_of-injective DataType.no_func_null DataType.no_func_null h e = refl
kind_of-injective DataType.eq_type DataType.eq_type h e = refl
kind_of-injective DataType.eq_type_null DataType.eq_type_null h e = refl
kind_of-injective DataType.struct_type DataType.struct_type h e = refl
kind_of-injective DataType.struct_null DataType.struct_null h e = refl
kind_of-injective DataType.array_type DataType.array_type h e = refl
kind_of-injective DataType.array_null DataType.array_null h e = refl
kind_of-injective DataType.i31 DataType.i31 h e = refl
kind_of-injective DataType.i31_null DataType.i31_null h e = refl
kind_of-injective DataType.exn DataType.exn h e = refl
kind_of-injective DataType.exn_null DataType.exn_null h e = refl
kind_of-injective DataType.no_exn DataType.no_exn h e = refl
kind_of-injective DataType.no_exn_null DataType.no_exn_null h e = refl
kind_of-injective DataType.cont DataType.cont h e = refl
kind_of-injective DataType.cont_null DataType.cont_null h e = refl
kind_of-injective DataType.no_cont DataType.no_cont h e = refl
kind_of-injective DataType.no_cont_null DataType.no_cont_null h e = refl
kind_of-injective _ _ h e = absurd (omega (arith, h))

pub same_bool-eq : (a b : Bool) → same_bool a b ≡ true → a ≡ b
same_bool-eq true b h = sym h
same_bool-eq false true h = h
same_bool-eq false false h = refl

pub and-true : (a b : Bool) → (a && b) ≡ true → (a ≡ true) × (b ≡ true)
and-true true b h = (refl, h)
and-true false b h = ground arith

-- The derived equality tells the types apart.
pub same_type-eq : (a b : DataType) → same_type a b ≡ true → a ≡ b
unfolding same_type
same_type-eq a b h =
    let (h1, nullables) =
      and-true ((kind_of a == kind_of b) && ((payload_of a).0 == (payload_of b).0))
        (same_bool (payload_of a).1 (payload_of b).1) h in
    let (kinds, numbers) =
      and-true (kind_of a == kind_of b) ((payload_of a).0 == (payload_of b).0) h1 in
    let number : (payload_of a).0 ≡ (payload_of b).0 =
      (==_iff (payload_of a).0 (payload_of b).0).0 numbers in
    let nullable : (payload_of a).1 ≡ (payload_of b).1 =
      same_bool-eq (payload_of a).1 (payload_of b).1 nullables in
    kind_of-injective a b ((==_iff (kind_of a) (kind_of b)).0 kinds) (λ i. (number i, nullable i))

replicate_snoc : (n : ℕ) (t : DataType) → t ∷ replicate n t ≡ replicate n t ++ t ∷ []
replicate_snoc zero t = refl
replicate_snoc (suc n) t = ap (λ r. t ∷ r) (replicate_snoc n t)

locals_as_vec-extend_locals :
    (ty : DataType) (locals : List (ℕ × DataType))
    → suc (length (locals_as_vec locals)) < 4294967296
    → locals_as_vec (extend_locals ty locals) ≡ locals_as_vec locals ++ ty ∷ []
unfolding locals_as_vec extend_locals
locals_as_vec-extend_locals ty [] fits = refl
locals_as_vec-extend_locals ty ((count, t) ∷ []) fits = elim (Bool-cases (same_type t ty)) [
  | inl e ↦
      let size : wrap32 (suc count) ≡ suc count =
        omega (arith, fits, length-append (replicate count t) [], length-replicate count t) in
      rw (e, size, append-nil (replicate count t), ← same_type-eq t ty e) (replicate_snoc count t)
  | inr f ↦ rw (f, append-nil (replicate count t)) refl
]
locals_as_vec-extend_locals ty ((count, t) ∷ next ∷ rest) fits =
    let fits' : suc (length (locals_as_vec (next ∷ rest))) < 4294967296 =
      omega (arith, fits, length-append (replicate count t) (locals_as_vec (next ∷ rest))) in
    rw (locals_as_vec-extend_locals ty (next ∷ rest) fits')
      (sym (append_assoc (replicate count t) (locals_as_vec (next ∷ rest)) (ty ∷ [])))

-- `num_locals` counts the locals.
abbrev pub IsCounted : ℕ → List (ℕ × DataType) → Type 0
IsCounted num_locals locals = num_locals ≡ length (locals_as_vec locals)

-- If `num_locals` counts the locals and the indices fit in 32 bits, `add_local` puts a local of
-- the type behind the old ones, the ID it gives is the index of that local behind the
-- parameters, and `num_locals` still counts the locals.
pub add_local-get_elem? :
    (ty : DataType) (params : List DataType) (num_locals : ℕ) (locals : List (ℕ × DataType))
    → IsCounted num_locals locals
    → suc (length params + num_locals) < 4294967296
    → (get_elem?
          (params ++ locals_as_vec (add_local ty (length params) num_locals locals).2)
          (add_local ty (length params) num_locals locals).0
        ≡ some ty)
      × (locals_as_vec (add_local ty (length params) num_locals locals).2
          ≡ locals_as_vec locals ++ ty ∷ [])
      × IsCounted
          (add_local ty (length params) num_locals locals).1
          (add_local ty (length params) num_locals locals).2
unfolding add_local
add_local-get_elem? ty params num_locals locals counted fits =
    let vec = locals_as_vec-extend_locals ty locals (omega (arith, counted, fits)) in
    let at : wrap32 (length params + num_locals) ≡ length (params ++ locals_as_vec locals) =
      omega (arith, counted, length-append params (locals_as_vec locals), fits) in
    let list : params ++ locals_as_vec (extend_locals ty locals)
        ≡ (params ++ locals_as_vec locals) ++ ty ∷ [] =
      ap (λ v. params ++ v) vec ∙ sym (append_assoc params (locals_as_vec locals) (ty ∷ [])) in
    (
      rw (list, at) (get_elem?-append_self (params ++ locals_as_vec locals) ty []),
      vec,
      rw vec (omega (arith, counted, fits, length-append (locals_as_vec locals) (ty ∷ []))),
    )

-- If there are fewer than 2 ^ 32 of them in all, the types given to `add_locals` follow those of the old locals, in their order.
locals_as_vec-add_locals :
    (types : List DataType) (num_params num_locals : ℕ) (locals : List (ℕ × DataType))
    → length (locals_as_vec locals) + length types < 4294967296
    → locals_as_vec (add_locals types num_params num_locals locals).1
      ≡ locals_as_vec locals ++ types
unfolding add_locals add_local
locals_as_vec-add_locals [] num_params num_locals locals fits =
    sym (append-nil (locals_as_vec locals))
locals_as_vec-add_locals (ty ∷ types) num_params num_locals locals fits =
    let vec = locals_as_vec-extend_locals ty locals (omega (arith, fits)) in
    let fits' : length (locals_as_vec (extend_locals ty locals)) + length types < 4294967296 =
      rw vec (omega (arith, fits, length-append (locals_as_vec locals) (ty ∷ []))) in
    locals_as_vec-add_locals types num_params (wrap32 (suc num_locals)) (extend_locals ty locals)
      fits'
    ∙ rw vec (append_assoc (locals_as_vec locals) (ty ∷ []) types)
