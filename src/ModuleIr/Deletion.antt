-- ===== src/ModuleIr/Deletion.antt =====
-- Deleting a function deletes its import with it, and the module stays valid.
use wirm.Base.{
  ◌⊎◌, ℕ, ◌+◌, ◌≡◌, ◌≢◌, refl, sym, ap, ◌∙◌, subst, true, false, some, get_elem?, set, arith, inl,
  inr, All, IsDistinct, length-set, get_elem?-lt, get_elem?-set_self,
}
use wirm.Base.Results.{ok}
use wirm.ModuleIr.Imports.{Import, ModuleImports, func_type, func_exact}
use wirm.ModuleIr.Imports
use wirm.ModuleIr.Funcs.{
  Function, Functions, FuncKind, local_kind, import_kind, LocalFunction, ImportedFunction,
  id_of_kind, new_function, new_local, set_local_fn_name, next_id, get_function, put, set_kind,
}
use wirm.ModuleIr.Funcs
use wirm.ModuleIr.{ModuleIr, delete_func}
use wirm.ModuleIr.Aligned.{
  live_imports, live_imports-delete, import_ids-delete_local, member_of_import_ids,
  live_imports-IsImport, ImportsAt, IsImport, import_ids-delete, without, live_imports-IsDistinct,
}
use wirm.ModuleIr.Laws.{IsValid, AreNumbered, set-AreNumbered}

kind_cases :
    (k : FuncKind)
    → ((l : LocalFunction) × (k ≡ local_kind l)) ⊎ ((i : ImportedFunction) × (k ≡ import_kind i))
kind_cases (local_kind l) = inl (l, refl)
kind_cases (import_kind i) = inr (i, refl)

local-ne-import : (l : LocalFunction) (i : ImportedFunction) → local_kind l ≢ import_kind i
local-ne-import l i e = cc

import_kind-injective : (i k : ImportedFunction) → import_kind i ≡ import_kind k → i ≡ k
import_kind-injective i k e = cc

imports_at :
    (f : Function) (i : ImportedFunction)
    → f.deleted ≡ false
    → f.kind ≡ import_kind i
    → ImportsAt f i.import_id
imports_at f i live kind xs = rw (live, kind) refl

module _ {G M : Type 0} where
  abbrev without_function : ModuleIr G M → ℕ → Function → ModuleIr G M
  without_function m p f = record m {
    functions = record {
      functions = set m.functions.functions p (record f { deleted = true });
      recalculate_ids = true;
    };
  }

  abbrev without_import : ModuleIr G M → ℕ → Import → ModuleIr G M
  without_import m j i = record m {
    imports = record m.imports { imports = set m.imports.imports j (record i { deleted = true }) };
  }

  local-delete :
      (m : ModuleIr G M) (p : ℕ) (f : Function) (l : LocalFunction)
      → get_elem? m.functions.functions p ≡ some f
      → f.kind ≡ local_kind l
      → delete_func m p ≡ ok (without_function m p f)
  unfolding delete_func Funcs.delete get_function
  local-delete m p f l at kind =
      let there =
        get_elem?-set_self m.functions.functions p (record f { deleted = true })
          (get_elem?-lt _ p at) in
      rw (at, there, kind) refl

  import-delete :
      (m : ModuleIr G M) (p : ℕ) (f : Function) (i : ImportedFunction) (imp : Import)
      → get_elem? m.functions.functions p ≡ some f
      → f.kind ≡ import_kind i
      → get_elem? m.imports.imports i.import_id ≡ some imp
      → delete_func m p ≡ ok (without_import (without_function m p f) i.import_id imp)
  unfolding delete_func Funcs.delete get_function Imports.delete
  import-delete m p f i imp at kind found =
      let there =
        get_elem?-set_self m.functions.functions p (record f { deleted = true })
          (get_elem?-lt _ p at) in
      rw (at, there, kind, found) refl

  deleted-numbered :
      (m : ModuleIr G M) (p : ℕ) (f : Function)
      → IsValid m
      → get_elem? m.functions.functions p ≡ some f
      → AreNumbered (set m.functions.functions p (record f { deleted = true }))
  deleted-numbered m p f h at =
      set-AreNumbered m.functions.functions p (record f { deleted = true }) h.numbered
        (h.numbered p f at)

  without_function-IsValid :
      (m : ModuleIr G M) (p : ℕ) (f : Function) (l : LocalFunction)
      → IsValid m
      → get_elem? m.functions.functions p ≡ some f
      → f.kind ≡ local_kind l
      → IsValid (without_function m p f)
  without_function-IsValid m p f l h at kind = record {
    in_step =
        λ e. h.in_step e ∙ sym (length-set m.functions.functions p (record f { deleted = true }));
    aligned = import_ids-delete_local m.functions.functions p f l at kind ∙ h.aligned;
    numbered = deleted-numbered m p f h at;
  }

  without_import-IsValid :
      (m : ModuleIr G M) (p : ℕ) (f : Function) (i : ImportedFunction) (imp : Import)
      → IsValid m
      → get_elem? m.functions.functions p ≡ some f
      → f.kind ≡ import_kind i
      → f.deleted ≡ false
      → get_elem? m.imports.imports i.import_id ≡ some imp
      → IsValid (without_import (without_function m p f) i.import_id imp)
  without_import-IsValid m p f i imp h at kind live found =
      let zero_add : 0 + i.import_id ≡ i.import_id = omega arith in
      let apart = subst IsDistinct (sym h.aligned) (live_imports-IsDistinct 0 m.imports.imports) in
      record {
        in_step = λ e.
            h.in_step e ∙ sym (length-set m.functions.functions p (record f { deleted = true }));
        aligned =
            import_ids-delete m.functions.functions p i.import_id f at (imports_at f i live kind)
              apart
            ∙ ap (without i.import_id) h.aligned
            ∙ sym (
                live_imports-delete 0 i.import_id m.imports.imports imp found
                ∙ ap (λ n. without n (live_imports 0 m.imports.imports)) zero_add);
        numbered = deleted-numbered m p f h at;
      }

  -- The import of a live imported function is in the import section.
  import_of_function :
      (m : ModuleIr G M) (p : ℕ) (f : Function) (i : ImportedFunction)
      → IsValid m
      → get_elem? m.functions.functions p ≡ some f
      → f.kind ≡ import_kind i
      → f.deleted ≡ false
      → (imp : Import) × (get_elem? m.imports.imports i.import_id ≡ some imp)
  import_of_function m p f i h at kind live =
      let all =
        subst (All (IsImport 0 m.imports.imports)) (sym h.aligned)
          (live_imports-IsImport 0 m.imports.imports) in
      let (q, imp, e, found) =
        member_of_import_ids (IsImport 0 m.imports.imports) m.functions.functions p i.import_id f at
          (imports_at f i live kind) all in
      let same : i.import_id ≡ q = omega (arith, e) in (imp, rw same found)

  -- In a valid module `delete_func` of a live function succeeds, marks the function as deleted
  -- and keeps the module valid; if the function is imported, its import is marked as deleted
  -- too.
  pub delete_func-IsValid :
      (m : ModuleIr G M) (p : ℕ) (f : Function)
      → IsValid m
      → get_elem? m.functions.functions p ≡ some f
      → f.deleted ≡ false
      → (m' : ModuleIr G M) × (delete_func m p ≡ ok m')
        × IsValid m'
        × (get_elem? m'.functions.functions p ≡ some (record f { deleted = true }))
        × ((i : ImportedFunction)
            → f.kind ≡ import_kind i
            → (imp : Import) × (get_elem? m'.imports.imports i.import_id
                ≡ some (record imp { deleted = true })))
  delete_func-IsValid m p f h at live =
      let there =
        get_elem?-set_self m.functions.functions p (record f { deleted = true })
          (get_elem?-lt _ p at) in
      elim (kind_cases f.kind) [
        | inl (l, kind) ↦ (
          without_function m p f,
          local-delete m p f l at kind,
          without_function-IsValid m p f l h at kind,
          there,
          λ i import. absurd (local-ne-import l i (sym kind ∙ import)),
        )
        | inr (i, kind) ↦
            let (imp, found) = import_of_function m p f i h at kind live in
            (
              without_import (without_function m p f) i.import_id imp,
              import-delete m p f i imp at kind found,
              without_import-IsValid m p f i imp h at kind live found,
              there,
              λ k import.
                  let same : i ≡ k = import_kind-injective i k (sym kind ∙ import) in
                  (
                    imp,
                    rw (← same) (
                        get_elem?-set_self m.imports.imports i.import_id
                          (record imp { deleted = true }) (get_elem?-lt _ i.import_id found)),
                  ),
            )
      ]
