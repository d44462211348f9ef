-- ===== src/Reindex/Memory.antt =====
-- The memory step of `fix_op_id_mapping`: which field is found first, and what becomes of it.
use wirm.Base.{
  ℕ, ◌≤◌, ◌≡◌, refl, ◌≢◌, ◌⊎◌, none, some, List, [], ◌∷◌, map, arith, All, inl, inr, ◌∙◌,
}
use wirm.Base.Maps.{HashMap}
use wirm.Base.Results.{ok, panic, ◌>>=◌, >>=-eq-ok, Result-cases}
use wirm.Reindex.{
  FieldName, function_index, global_index, memarg, mem, src_mem, dst_mem, other_field, Field,
  memory_field, update_field, update_memory_fields,
}
use wirm.Reindex.{deleted_memory}
use wirm.Reindex.Fields.{
  occurs, IsDeclared, new_of, renumber, IsMapped, update_field-renumber, update_field-IsMapped,
  update_field-ne-panic, occurs-renumber, IsMapped-renumber, Apart, IsMapped-absent, has_of_occurs,
  has_field-update_field,
}

abbrev pub renumber_memory : HashMap ℕ → Field → Field
renumber_memory mm f = elim f.name [
  | function_index ↦ f
  | global_index ↦ f
  | other_field ↦ f
  | _ ↦ record f { index = new_of mm f.index }
]

pub memory_field-none :
    (fs : List Field)
    → memory_field fs ≡ none
    → (occurs memarg fs ≡ 0) × (occurs mem fs ≡ 0) × (occurs src_mem fs ≡ 0)
unfolding memory_field
memory_field-none [] h = omega arith
memory_field-none (f ∷ fs) h = ground (arith, memory_field-none fs)

memory_field-some :
    (fs : List Field) (n : FieldName)
    → memory_field fs ≡ some n
    → (n ≡ memarg) × (1 ≤ occurs memarg fs)
      ⊎ ((n ≡ mem) × (1 ≤ occurs mem fs) ⊎ (n ≡ src_mem) × (1 ≤ occurs src_mem fs))
unfolding memory_field
memory_field-some [] n h = cc
memory_field-some (f ∷ fs) n h = ground (arith, memory_field-some fs n)

pub renumber_memory-none :
    (mm : HashMap ℕ) (fs : List Field)
    → occurs memarg fs ≡ 0
    → occurs mem fs ≡ 0
    → occurs src_mem fs ≡ 0
    → occurs dst_mem fs ≡ 0
    → map (renumber_memory mm) fs ≡ fs
renumber_memory-none mm [] a b c d = refl
renumber_memory-none mm (f ∷ fs) a b c d = ground (arith, renumber_memory-none mm fs)

renumber_memory-memarg :
    (mm : HashMap ℕ) (fs : List Field)
    → occurs mem fs ≡ 0
    → occurs src_mem fs ≡ 0
    → occurs dst_mem fs ≡ 0
    → map (renumber_memory mm) fs ≡ map (renumber memarg mm) fs
renumber_memory-memarg mm [] b c d = refl
renumber_memory-memarg mm (f ∷ fs) b c d = ground (arith, renumber_memory-memarg mm fs)

renumber_memory-mem :
    (mm : HashMap ℕ) (fs : List Field)
    → occurs memarg fs ≡ 0
    → occurs src_mem fs ≡ 0
    → occurs dst_mem fs ≡ 0
    → map (renumber_memory mm) fs ≡ map (renumber mem mm) fs
renumber_memory-mem mm [] b c d = refl
renumber_memory-mem mm (f ∷ fs) b c d = ground (arith, renumber_memory-mem mm fs)

renumber_memory-copy :
    (mm : HashMap ℕ) (fs : List Field)
    → occurs memarg fs ≡ 0
    → occurs mem fs ≡ 0
    → map (renumber_memory mm) fs ≡ map (renumber dst_mem mm) (map (renumber src_mem mm) fs)
renumber_memory-copy mm [] a b = refl
renumber_memory-copy mm (f ∷ fs) a b = ground (arith, renumber_memory-copy mm fs)

src-Apart-dst : Apart src_mem dst_mem
src-Apart-dst x h = ground arith

-- All memory fields are mapped.
pub record AreMemoriesMapped (mm : HashMap ℕ) (fs : List Field) : Type 0 where
  pub by_memarg : All (IsMapped memarg mm) fs
  pub by_mem : All (IsMapped mem mm) fs
  pub by_src : All (IsMapped src_mem mm) fs
  pub by_dst : All (IsMapped dst_mem mm) fs

module _ (mm : HashMap ℕ) (fs : List Field) (d : IsDeclared fs) where
  pub update_memory-renumber :
      (n : FieldName)
      → memory_field fs ≡ some n
      → AreMemoriesMapped mm fs
      → update_memory_fields (some n) mm fs ≡ ok (map (renumber_memory mm) fs)
  unfolding update_memory_fields
  update_memory-renumber n h a = elim (memory_field-some fs n h) [
    | inl (is, there) ↦
        rw (is, renumber_memory-memarg mm fs (omega arith) (omega arith) (omega arith))
          (update_field-renumber memarg deleted_memory mm fs (omega arith) a.by_memarg)
    | inr (inl (is, there)) ↦
        rw (is, renumber_memory-mem mm fs (omega arith) (omega arith) (omega arith))
          (update_field-renumber mem deleted_memory mm fs (omega arith) a.by_mem)
    | inr (inr (is, there)) ↦
        rw
          (
            is,
            renumber_memory-copy mm fs (omega arith) (omega arith),
            update_field-renumber src_mem deleted_memory mm fs (omega arith) a.by_src,
          )
          (update_field-renumber dst_mem deleted_memory mm (map (renumber src_mem mm) fs)
            (occurs-renumber src_mem dst_mem mm fs ∙ omega arith)
            ((IsMapped-renumber src_mem dst_mem mm mm fs src-Apart-dst).0 a.by_dst))
  ]

  pub update_memory-mapped :
      (n : FieldName) {fs' : List Field}
      → memory_field fs ≡ some n
      → update_memory_fields (some n) mm fs ≡ ok fs'
      → AreMemoriesMapped mm fs
  unfolding update_memory_fields
  update_memory-mapped n {fs'} h e = elim (memory_field-some fs n h) [
    | inl (is, there) ↦ record {
      by_memarg = update_field-IsMapped memarg deleted_memory mm fs (omega arith) (rw is at e);
      by_mem = IsMapped-absent mem mm fs (omega arith);
      by_src = IsMapped-absent src_mem mm fs (omega arith);
      by_dst = IsMapped-absent dst_mem mm fs (omega arith);
    }
    | inr (inl (is, there)) ↦ record {
      by_memarg = IsMapped-absent memarg mm fs (omega arith);
      by_mem = update_field-IsMapped mem deleted_memory mm fs (omega arith) (rw is at e);
      by_src = IsMapped-absent src_mem mm fs (omega arith);
      by_dst = IsMapped-absent dst_mem mm fs (omega arith);
    }
    | inr (inr (is, there)) ↦
        let e' : (update_field src_mem deleted_memory mm fs >>= λ fields.
        update_field dst_mem deleted_memory mm fields)
            ≡ ok fs' =
          rw is at e in
        let (mid, first, second) =
          >>=-eq-ok (update_field src_mem deleted_memory mm fs)
            (λ fields. update_field dst_mem deleted_memory mm fields) e' in
        let from = update_field-IsMapped src_mem deleted_memory mm fs (omega arith) first in
        let same : map (renumber src_mem mm) fs ≡ mid =
          cc (update_field-renumber src_mem deleted_memory mm fs (omega arith) from) in
        record {
          by_memarg = IsMapped-absent memarg mm fs (omega arith);
          by_mem = IsMapped-absent mem mm fs (omega arith);
          by_src = from;
          by_dst = (IsMapped-renumber src_mem dst_mem mm mm fs src-Apart-dst).1 (
              update_field-IsMapped dst_mem deleted_memory mm (map (renumber src_mem mm) fs)
                {fs' = fs'} (omega (arith, occurs-renumber src_mem dst_mem mm fs))
                (rw same second));
        }
  ]

  pub update_memory-ne-panic :
      (n : FieldName) → memory_field fs ≡ some n → update_memory_fields (some n) mm fs ≢ panic
  unfolding update_memory_fields
  update_memory-ne-panic n h e = elim (memory_field-some fs n h) [
    | inl (is, there) ↦
        update_field-ne-panic memarg deleted_memory mm fs (has_of_occurs memarg fs there)
          (rw is at e)
    | inr (inl (is, there)) ↦
        update_field-ne-panic mem deleted_memory mm fs (has_of_occurs mem fs there) (rw is at e)
    | inr (inr (is, there)) ↦ copying there (rw is at e)
  ]
    where
      copying :
          1 ≤ occurs src_mem fs
          → (update_field src_mem deleted_memory mm fs >>= λ fields.
              update_field dst_mem deleted_memory mm fields)
            ≢ panic
      copying there e = elim (Result-cases (update_field src_mem deleted_memory mm fs)) [
        | inl (mid, first) ↦
            update_field-ne-panic dst_mem deleted_memory mm mid
              (has_field-update_field src_mem dst_mem deleted_memory mm fs first
                ∙ has_of_occurs dst_mem fs (omega arith))
              (rw first at e)
        | inr (inl (x, failed)) ↦ cc (rw failed at e)
        | inr (inr stop) ↦
            update_field-ne-panic src_mem deleted_memory mm fs (has_of_occurs src_mem fs there) stop
      ]
