-- ===== src/IndexScope/Found.antt =====
-- The scope's invariant, and that the items given IDs in one pass are each found where they stand,
-- the IDs of each space in the order of its items.
use wirm.Base.{
  ℕ, zero, suc, ◌+◌, ◌≡◌, ◌≢◌, refl, ap, sym, ◌∙◌, subst, Option, some, List, [], ◌∷◌, arith,
  ==_iff, ==_refl, get_elem?-append_self, get_elem?, length, ◌==◌, if◌then◌else◌, inl, inr,
  Bool-cases,
}
use wirm.Base.Results.{ok}
use mathlib.Core.Option.{some-injective}
use wirm.Space.{SpaceSubtype, Space, ComponentSection}
use wirm.IdxSpace.{default_space, subtype_of, index_from_assumed_id}
use wirm.IdxSpace.Slots.{slot}
use wirm.IdxSpace.Assign.{assign-current_id, assign-slot_self, assign-keeps}
use wirm.IdxSpace.Laws.{
  IsValid, default_space-IsValid, assign_assumed_id-IsValid, index_from_assumed_id-at,
}
use wirm.IndexScope.{IndexScope, new, get_space, with_space, assign, assign_for, index_from}
use wirm.IndexScope.Laws.{
  tag, get_space-some, tag-injective, Space-cases, space_at, IsValidScope, assign_na,
  assign-space_at,
}

-- Item `id` of `space` is the `j`-th of the entry `idx`.
abbrev pub Stands : IndexScope → Space → ℕ → SpaceSubtype → ℕ → ℕ → Type 0
Stands s space id subty idx j = get_elem? (slot (space_at s space) subty idx) j ≡ some id

default_get : (id : ℕ) (space : Space) → space_at (new id) space ≡ default_space
unfolding get_space new
default_get id Space.na = refl
default_get id _ = refl

pub new-IsValidScope : (id : ℕ) → IsValidScope (new id)
new-IsValidScope id space = rw (default_get id space) default_space-IsValid

assign-IsValidScope :
    (s : IndexScope) (space : Space) (section : ComponentSection) (i : ℕ)
    → IsValidScope s
    → IsValidScope (assign s space section i).1
assign-IsValidScope s space section i h other = elim (Space-cases space) [
  | inl missing ↦ rw (missing, assign_na s section i) (h other)
  | inr there ↦ elim (Bool-cases (tag space == tag other)) [
    | inl t ↦
        rw (assign-space_at s space other section i there, t)
          (assign_assumed_id-IsValid (space_at s space) section i (h space))
    | inr f ↦ rw (assign-space_at s space other section i there, f) (h other)
  ]
]

-- Giving IDs to a list of items keeps every space of a scope valid.
pub assign_for-IsValidScope :
    (s : IndexScope) (i : ℕ) (items : List (Space × ComponentSection))
    → IsValidScope s
    → IsValidScope (assign_for s i items)
unfolding assign_for
assign_for-IsValidScope s i [] h = h
assign_for-IsValidScope s i ((space, section) ∷ items) h =
    assign_for-IsValidScope (assign s space section i).1 (suc i) items
      (assign-IsValidScope s space section i h)

assign-Stands :
    (s : IndexScope) (space other : Space) (section : ComponentSection) (i id : ℕ)
    (subty : SpaceSubtype) (idx j : ℕ)
    → Stands s other id subty idx j
    → Stands (assign s space section i).1 other id subty idx j
assign-Stands s space other section i id subty idx j h = elim (Space-cases space) [
  | inl missing ↦ rw (missing, assign_na s section i) h
  | inr there ↦ elim (Bool-cases (tag space == tag other)) [
    | inl t ↦
        let same = tag-injective space other ((==_iff (tag space) (tag other)).0 t) in
        let old : Stands s space id subty idx j =
          subst (λ o. Stands s o id subty idx j) (sym same) h in
        rw (assign-space_at s space other section i there, t)
          (assign-keeps (space_at s space) section i subty idx j id old)
    | inr f ↦ rw (assign-space_at s space other section i there, f) h
  ]
]

assign_for-Stands :
    (s : IndexScope) (i : ℕ) (items : List (Space × ComponentSection)) (other : Space) (id : ℕ)
    (subty : SpaceSubtype) (idx j : ℕ)
    → Stands s other id subty idx j
    → Stands (assign_for s i items) other id subty idx j
unfolding assign_for
assign_for-Stands s i [] other id subty idx j h = h
assign_for-Stands s i ((space, section) ∷ items) other id subty idx j h =
    assign_for-Stands (assign s space section i).1 (suc i) items other id subty idx j
      (assign-Stands s space other section i id subty idx j h)

-- The items of `space` among the first `k`.
abbrev pub count : Space → ℕ → List (Space × ComponentSection) → ℕ
count space zero items = 0
count space (suc k) [] = 0
count space (suc k) ((other, section) ∷ items) =
    (if tag other == tag space then 1 else 0) + count space k items

assign-current_id_at :
    (s : IndexScope) (other space : Space) (section : ComponentSection) (i : ℕ)
    → space ≢ Space.na
    → (space_at (assign s other section i).1 space).current_id
      ≡ (space_at s space).current_id + (if tag other == tag space then 1 else 0)
assign-current_id_at s other space section i h = elim (Space-cases other) [
  | inl missing ↦ elim (Bool-cases (tag other == tag space)) [
    | inl t ↦
        absurd
          (h (sym (tag-injective other space ((==_iff (tag other) (tag space)).0 t)) ∙ missing))
    | inr f ↦ rw (f, missing, assign_na s section i) (omega arith)
  ]
  | inr there ↦ elim (Bool-cases (tag other == tag space)) [
    | inl t ↦
        let same = tag-injective other space ((==_iff (tag other) (tag space)).0 t) in
        let counted = assign-current_id (space_at s other) section i in
        let here = ap (λ o. (space_at s o).current_id) same in
        rw (assign-space_at s other space section i there, t) (omega (arith, counted, here))
    | inr f ↦ rw (assign-space_at s other space section i there, f) (omega arith)
  ]
]

assign-places :
    (s : IndexScope) (space : Space) (section : ComponentSection) (i : ℕ)
    → space ≢ Space.na
    → Stands
        (assign s space section i).1
        space
        (space_at s space).current_id
        (subtype_of section)
        i
        (length (slot (space_at s space) (subtype_of section) i))
assign-places s space section i h =
    rw
      (
        assign-space_at s space space section i h,
        ==_refl (tag space),
        assign-slot_self (space_at s space) section i,
      )
      (get_elem?-append_self (slot (space_at s space) (subtype_of section) i)
        (space_at s space).current_id [])

-- The `k`-th item of a pass stands in the entry `i + k` of its section's vector, under the next ID
-- of its space.
assign_for-places :
    (s : IndexScope) (i : ℕ) (items : List (Space × ComponentSection)) (k : ℕ) (space : Space)
    (section : ComponentSection)
    → space ≢ Space.na
    → get_elem? items k ≡ some (space, section)
    → (j : ℕ) × Stands
        (assign_for s i items)
        space
        ((space_at s space).current_id + count space k items)
        (subtype_of section)
        (i + k)
        j
unfolding assign_for
assign_for-places s i [] k space section h at = cc
assign_for-places s i ((other, sec) ∷ items) zero space section h at =
    let e : (other, sec) ≡ (space, section) = some-injective _ _ at in
    let same : other ≡ space = ap (λ q. q.0) e in
    let sections : sec ≡ section = ap (λ q. q.1) e in
    (
      length (slot (space_at s space) (subtype_of section) i),
      rw (same, sections)
          (assign_for-Stands (assign s space section i).1 (suc i) items space
            ((space_at s space).current_id + 0) (subtype_of section) (i + 0)
            (length (slot (space_at s space) (subtype_of section) i))
            (let id : (space_at s space).current_id ≡ (space_at s space).current_id + 0 =
                omega arith in
              let index : i ≡ i + 0 = omega arith in
              rw (← id, ← index) (assign-places s space section i h))),
    )
assign_for-places s i ((other, sec) ∷ items) (suc k) space section h at =
    let (j, stands) =
      assign_for-places (assign s other sec i).1 (suc i) items k space section h at in
    let step = assign-current_id_at s other space sec i h in
    let id : (space_at (assign s other sec i).1 space).current_id + count space k items
        ≡ (space_at s space).current_id + count space (suc k) ((other, sec) ∷ items) =
      omega (arith, step) in
    let index : suc i + k ≡ i + suc k = omega arith in (j, rw (← id, ← index) stands)

index_from-at :
    (s : IndexScope) (depth : ℕ) (space : Space) (id : ℕ) (subty : SpaceSubtype) (idx j : ℕ)
    → IsValidScope s
    → space ≢ Space.na
    → Stands s space id subty idx j
    → (o : Option ℕ) × (s' : IndexScope) × (index_from s
          (record { depth = depth; space = space; index = id })
        ≡ ok ((subty, (idx, o)), s'))
unfolding index_from
index_from-at s depth space id subty idx j valid h at =
    let (x, there) = get_space-some s space h in
    let at_x : get_elem? (slot x subty idx) j ≡ some id = rw there at at in
    let valid_x : IsValid x = rw there at (valid space) in
    let (o, found, same) = index_from_assumed_id-at x id subty idx j valid_x at_x in
    (o, with_space s space (index_from_assumed_id x id).1, rw (there, found) refl)

-- If the scope is valid and the `k`-th item of a pass is in a space other than `NA`, then after
-- the pass the ID that counts on from the space's last one, by the items of that space before
-- the `k`-th, is found at the vector of the item's section and at its index.
pub index_from-assign_for :
    (s : IndexScope) (i : ℕ) (items : List (Space × ComponentSection)) (k depth : ℕ) (space : Space)
    (section : ComponentSection)
    → IsValidScope s
    → space ≢ Space.na
    → get_elem? items k ≡ some (space, section)
    → (o : Option ℕ) × (s' : IndexScope) × (index_from (assign_for s i items) (record {
      depth = depth;
      space = space;
      index = (space_at s space).current_id + count space k items;
    })
        ≡ ok ((subtype_of section, (i + k, o)), s'))
index_from-assign_for s i items k depth space section valid h at =
    let (j, stands) = assign_for-places s i items k space section h at in
    index_from-at (assign_for s i items) depth space _ (subtype_of section) (i + k) j
      (assign_for-IsValidScope s i items valid) h stands
