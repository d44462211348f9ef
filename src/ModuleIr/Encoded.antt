-- ===== src/ModuleIr/Encoded.antt =====
-- The functions in the order of the encoding: the imported ones come first, in the order of the
-- import section, so that the encoder's function indices are those of the binary format.
use wirm.Base.{
  All, ◌≢◌, ℕ, zero, suc, ◌+◌, ◌≡◌, refl, ◌∙◌, Bool, true, false, some, List, [], ◌∷◌, get_elem?,
  keep, arith, get_elem?-append_left, get_elem?-lt,
}
use wirm.Base.Maps.{get}
use mathlib.Core.Option.{some-injective}
use wirm.Reorder.{recalculate_ids, reorganize}
use wirm.Reorder.Order.{is_live_import, is_live_local, reorganize_lem}
use wirm.Reorder.Mapping.{recalculate_ids-exact, HasDistinctIds}
use wirm.ModuleIr.{ModuleIr}
use wirm.ModuleIr.Funcs.{
  Function, FuncKind, local_kind, import_kind, ImportedFunction, id_of_kind, function_Item,
}
use wirm.ModuleIr.Aligned.{live_imports, import_ids, import_of}
use wirm.ModuleIr.Laws.{IsValid}

-- The `k`-th live imported function has import ID `j`.
abbrev pub Kept : List Function → ℕ → ℕ → Type 0
Kept fs k j =
    (f : Function) × (i : ImportedFunction) × (get_elem? (keep is_live_import fs) k ≡ some f)
    × (f.kind ≡ import_kind i)
    × (i.import_id ≡ j)

Kept-step :
    (f : Function) (fs : List Function) (k j : ℕ) (d : Bool) (kind : FuncKind)
    → f.deleted ≡ d
    → f.kind ≡ kind
    → ((k j : ℕ) → get_elem? (import_ids fs) k ≡ some j → Kept fs k j)
    → get_elem? (import_of d kind (import_ids fs)) k ≡ some j
    → Kept (f ∷ fs) k j
Kept-step f fs k j true kind dead is_kind ih h =
    let (g, i, at, import, same) = ih k j h in (g, i, rw dead at, import, same)
Kept-step f fs k j false (local_kind l) live is_kind ih h =
    let (g, i, at, import, same) = ih k j h in (g, i, rw (live, is_kind) at, import, same)
Kept-step f fs zero j false (import_kind i) live is_kind ih h =
    (f, i, rw (live, is_kind) refl, is_kind, some-injective _ _ h)
Kept-step f fs (suc k) j false (import_kind i) live is_kind ih h =
    let (g, i', at, import, same) = ih k j h in (g, i', rw (live, is_kind) at, import, same)

Kept-import : (fs : List Function) (k j : ℕ) → get_elem? (import_ids fs) k ≡ some j → Kept fs k j
Kept-import [] k j h = cc
Kept-import (f ∷ fs) k j h = Kept-step f fs k j f.deleted f.kind refl refl (Kept-import fs) h

All-of_get_elem? :
    (P : Function → Type 0) (xs : List Function)
    → ((p : ℕ) (x : Function) → get_elem? xs p ≡ some x → P x)
    → All P xs
All-of_get_elem? P [] h = tt
All-of_get_elem? P (x ∷ xs) h = (h 0 x refl, All-of_get_elem? P xs (λ p. h (suc p)))

-- Functions with consecutive IDs have different IDs.
numbered-HasDistinctIds :
    (n : ℕ) (fs : List Function)
    → ((p : ℕ) (f : Function) → get_elem? fs p ≡ some f → id_of_kind f.kind ≡ n + p)
    → HasDistinctIds fs
numbered-HasDistinctIds n [] h = tt
numbered-HasDistinctIds n (f ∷ fs) h =
    let first : id_of_kind f.kind ≡ n + 0 = h 0 f refl in
    (
      All-of_get_elem? (λ g. id_of_kind f.kind ≢ id_of_kind g.kind) fs
          (λ p g at e.
            let later : id_of_kind g.kind ≡ n + suc p = h (suc p) g at in
            absurd (omega (arith, first, later, e))),
      numbered-HasDistinctIds (suc n) fs (λ p g at.
          let later : id_of_kind g.kind ≡ n + suc p = h (suc p) g at in omega (arith, later)),
    )

-- If the module is valid and the `k`-th live function import of its import section is at index
-- `j`, then after `recalculate_ids` the `k`-th function is an imported one whose import ID is
-- `j`, and the mapping sends the ID of that function to `k`.
pub recalculate_ids-imports :
    {G M : Type 0} (m : ModuleIr G M) (k j : ℕ)
    → IsValid m
    → get_elem? (live_imports 0 m.imports.imports) k ≡ some j
    → (f : Function) × (i : ImportedFunction) × (get_elem?
          (recalculate_ids m.functions.functions).0
          k
        ≡ some f)
      × (f.kind ≡ import_kind i)
      × (i.import_id ≡ j)
      × (get (id_of_kind f.kind) (recalculate_ids m.functions.functions).1 ≡ some k)
unfolding recalculate_ids
recalculate_ids-imports m k j h at =
    let fs = m.functions.functions in
    let (f, i, found, kind, same) = Kept-import fs k j (rw h.aligned at) in
    let distinct =
      numbered-HasDistinctIds 0 fs (λ p g there. omega (arith, h.numbered p g there)) in
    let here : get_elem? (reorganize fs) k ≡ some f = rw (reorganize_lem fs) (
      get_elem?-append_left (keep is_live_import fs) (keep is_live_local fs) k
        (get_elem?-lt _ k found)
      ∙ found) in
    (
      f,
      i,
      here,
      kind,
      same,
      (recalculate_ids-exact fs (id_of_kind f.kind) k distinct).1 (f, here, refl),
    )
