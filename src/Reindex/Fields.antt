-- ===== src/Reindex/Fields.antt =====
-- `update_field` on the fields of one name, against renumbering them all.
use wirm.Base.{
  ℕ, suc, ◌+◌, ◌≤◌, ◌≡◌, refl, ◌≢◌, ◌↔◌, true, false, none, some, List, [], ◌∷◌, map, arith,
  if◌then◌else◌, All, Bool-cases, Option-cases, inl, inr,
}
use wirm.Base.Maps.{HashMap, get}
use wirm.Base.Results.{ok, panic, Error, or_err, ◌>>=◌, >>=-eq-ok}
use wirm.Reindex.{
  FieldName, function_index, global_index, memarg, mem, src_mem, dst_mem, Field, is_name, has_field,
  update_field,
}

-- How many fields have a name.
abbrev pub occurs : FieldName → List Field → ℕ
occurs n [] = 0
occurs n (f ∷ rest) = if is_name n f.name then suc (occurs n rest) else occurs n rest

-- What the declarations of wasmparser's operators have in common: no field name twice, at most
-- one way to name a memory, and a `dst_mem` exactly beside a `src_mem`.
pub record IsDeclared (fields : List Field) : Type 0 where
  pub one_function : occurs function_index fields ≤ 1
  pub one_global : occurs global_index fields ≤ 1
  pub one_memory : occurs memarg fields + occurs mem fields + occurs src_mem fields ≤ 1
  pub copy : occurs dst_mem fields ≡ occurs src_mem fields

-- The new index, or the old one where the mapping has none.
abbrev pub new_of : HashMap ℕ → ℕ → ℕ
new_of m i = elim (get i m) [ none ↦ i | some j ↦ j ]

-- The field with its index sent through a mapping, if it has the name.
abbrev pub renumber : FieldName → HashMap ℕ → Field → Field
renumber n m f = if is_name n f.name then record f { index = new_of m f.index } else f

-- If the field has the name, the mapping has its index.
abbrev pub IsMapped : FieldName → HashMap ℕ → Field → Type 0
IsMapped n m f = is_name n f.name ≡ true → get f.index m ≢ none

pub has_field-occurs : (n : FieldName) (fs : List Field) → has_field n fs ≡ false → occurs n fs ≡ 0
unfolding has_field
has_field-occurs n [] h = refl
has_field-occurs n (f ∷ fs) h = ground (arith, has_field-occurs n fs)

pub renumber_absent :
    (n : FieldName) (m : HashMap ℕ) (fs : List Field) → occurs n fs ≡ 0 → map (renumber n m) fs ≡ fs
renumber_absent n m [] h = refl
renumber_absent n m (f ∷ fs) h = ground (arith, renumber_absent n m fs)

pub IsMapped-absent :
    (n : FieldName) (m : HashMap ℕ) (fs : List Field) → occurs n fs ≡ 0 → All (IsMapped n m) fs
IsMapped-absent n m [] h = tt
IsMapped-absent n m (f ∷ fs) h = ground (arith, IsMapped-absent n m fs)

pub update_field-renumber :
    (n : FieldName) (e : ℕ → Error) (m : HashMap ℕ) (fs : List Field)
    → occurs n fs ≡ 1
    → All (IsMapped n m) fs
    → update_field n e m fs ≡ ok (map (renumber n m) fs)
unfolding update_field
update_field-renumber n e m [] o h = absurd (omega arith)
update_field-renumber n e m (f ∷ fs) o h = elim (Bool-cases (is_name n f.name)) [
  | inl t ↦ elim (Option-cases (get f.index m)) [
    | inl missing ↦ absurd (h.0 t missing)
    | inr (j, found) ↦ ground (arith, renumber_absent n m fs)
  ]
  | inr u ↦ rw (u, update_field-renumber n e m fs (ground arith) h.1)
]

pub update_field-IsMapped :
    (n : FieldName) (e : ℕ → Error) (m : HashMap ℕ) (fs : List Field) {fs' : List Field}
    → occurs n fs ≤ 1
    → update_field n e m fs ≡ ok fs'
    → All (IsMapped n m) fs
unfolding update_field
update_field-IsMapped n e m [] o h = tt
update_field-IsMapped n e m (f ∷ fs) {fs'} o h = elim (Bool-cases (is_name n f.name)) [
  | inl t ↦ (λ _ missing. ground arith, IsMapped-absent n m fs (ground arith))
  | inr u ↦
      let h' : (update_field n e m fs >>= λ rest. ok (f ∷ rest)) ≡ ok fs' = rw u at h in
      let (fs'', done, _) = >>=-eq-ok (update_field n e m fs) (λ rest. ok (f ∷ rest)) h' in
      (λ t. cc, update_field-IsMapped n e m fs (ground arith) done)
]

pub update_field-ne-panic :
    (n : FieldName) (e : ℕ → Error) (m : HashMap ℕ) (fs : List Field)
    → has_field n fs ≡ true
    → update_field n e m fs ≢ panic
unfolding update_field has_field
update_field-ne-panic n e m [] h = cc
update_field-ne-panic n e m (f ∷ fs) h = ground (arith, update_field-ne-panic n e m fs)

-- Two names that no field has both.
abbrev pub Apart : FieldName → FieldName → Type 0
Apart n k = (x : FieldName) → is_name n x ≡ true → is_name k x ≡ false

pub occurs-renumber :
    (n k : FieldName) (m : HashMap ℕ) (fs : List Field)
    → occurs k (map (renumber n m) fs) ≡ occurs k fs
occurs-renumber n k m [] = refl
occurs-renumber n k m (f ∷ fs) = ground (arith, occurs-renumber n k m fs)

pub IsMapped-renumber :
    (n k : FieldName) (m m' : HashMap ℕ) (fs : List Field)
    → Apart n k
    → All (IsMapped k m') fs ↔ All (IsMapped k m') (map (renumber n m) fs)
IsMapped-renumber n k m m' [] a = ((λ _. tt), (λ _. tt))
IsMapped-renumber n k m m' (f ∷ fs) a = elim (Bool-cases (is_name n f.name)) [
  | inl t ↦
      let away = a f.name t in
      rw t (
        (
          λ h. (λ e. cc, (IsMapped-renumber n k m m' fs a).0 h.1),
          λ h. (λ e. cc, (IsMapped-renumber n k m m' fs a).1 h.1),
        ))
  | inr u ↦ rw u (
      (
        λ h. (h.0, (IsMapped-renumber n k m m' fs a).0 h.1),
        λ h. (h.0, (IsMapped-renumber n k m m' fs a).1 h.1),
      ))
]

pub has_of_occurs : (n : FieldName) (fs : List Field) → 1 ≤ occurs n fs → has_field n fs ≡ true
has_of_occurs n fs h = elim (Bool-cases (has_field n fs)) [
  | inl t ↦ t
  | inr f ↦ absurd (omega (arith, has_field-occurs n fs f))
]

-- `update_field` keeps the names of the fields.
pub has_field-update_field :
    (n k : FieldName) (e : ℕ → Error) (m : HashMap ℕ) (fs : List Field) {fs' : List Field}
    → update_field n e m fs ≡ ok fs'
    → has_field k fs' ≡ has_field k fs
unfolding update_field has_field
has_field-update_field n k e m [] h = cc
has_field-update_field n k e m (f ∷ fs) {fs'} h = elim (Bool-cases (is_name n f.name)) [
  | inl t ↦
      let h' : (or_err (get f.index m) (e f.index) >>= λ i. ok (record f { index = i } ∷ fs))
          ≡ ok fs' =
        rw t at h in
      let (i, _, same) =
        >>=-eq-ok (or_err (get f.index m) (e f.index)) (λ i. ok (record f { index = i } ∷ fs)) h' in
      let same' : record f { index = i } ∷ fs ≡ fs' = cc in rw (← same') refl
  | inr u ↦
      let h' : (update_field n e m fs >>= λ rest. ok (f ∷ rest)) ≡ ok fs' = rw u at h in
      let (rest, done, same) = >>=-eq-ok (update_field n e m fs) (λ rest. ok (f ∷ rest)) h' in
      let same' : f ∷ rest ≡ fs' = cc in rw (← same') (rw (has_field-update_field n k e m fs done))
]

pub occurs_of_has : (n : FieldName) (fs : List Field) → has_field n fs ≡ true → 1 ≤ occurs n fs
unfolding has_field
occurs_of_has n [] h = cc
occurs_of_has n (f ∷ fs) h = ground (arith, occurs_of_has n fs)
