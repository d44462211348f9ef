-- ===== src/ModuleIr/Conversion.antt =====
-- Converting an imported function to a local one keeps the module valid.
use wirm.Base.{
  ℕ, zero, suc, ◌≡◌, refl, sym, ap, ◌∙◌, true, false, some, List, [], ◌∷◌, get_elem?, set,
  length-set, get_elem?-lt, get_elem?-set_self,
}
use wirm.Base.Results.{ok}
use mathlib.Core.Option.{some-injective}
use wirm.ModuleIr.Funcs.{
  Function, local_kind, import_kind, LocalFunction, ImportedFunction, get_function, put, set_kind,
}
use wirm.ModuleIr.{ModuleIr, delete_func, convert_import_fn_to_local}
use wirm.ModuleIr.Aligned.{import_ids, import_of}
use wirm.ModuleIr.Laws.{IsValid, set-AreNumbered}
use wirm.ModuleIr.Deletion.{delete_func-IsValid}

-- A function that has no live import may take the place of another such one.
import_ids-set :
    (fs : List Function) (p : ℕ) (f g : Function)
    → get_elem? fs p ≡ some f
    → ((xs : List ℕ) → import_of f.deleted f.kind xs ≡ xs)
    → ((xs : List ℕ) → import_of g.deleted g.kind xs ≡ xs)
    → import_ids (set fs p g) ≡ import_ids fs
import_ids-set [] p f g at old new = cc
import_ids-set (h ∷ fs) zero f g at old new =
    new (import_ids fs)
    ∙ sym (
        ap (λ x. import_of x.deleted x.kind (import_ids fs)) (some-injective h f at)
        ∙ old (import_ids fs))
import_ids-set (h ∷ fs) (suc p) f g at old new =
    ap (import_of h.deleted h.kind) (import_ids-set fs p f g at old new)

module _ {G M : Type 0} where
  abbrev with_function : ModuleIr G M → ℕ → Function → ModuleIr G M
  with_function m p g = record m {
    functions = record m.functions { functions = set m.functions.functions p g };
  }

  convert-run :
      (m m' : ModuleIr G M) (p : ℕ) (f f' : Function) (i : ImportedFunction) (l : LocalFunction)
      → get_elem? m.functions.functions p ≡ some f
      → f.kind ≡ import_kind i
      → delete_func m p ≡ ok m'
      → get_elem? m'.functions.functions p ≡ some f'
      → convert_import_fn_to_local m p l
        ≡ ok (true, with_function m' p (record f' { kind = local_kind l; deleted = false }))
  unfolding convert_import_fn_to_local get_function put set_kind
  convert-run m m' p f f' i l at kind done there = rw (done, at, kind, there) refl

  -- In a valid module `convert_import_fn_to_local`, given the index of a live imported function
  -- among the functions, which is what it takes its import ID for, and a local function with
  -- that ID, succeeds, puts the local function in its place under its name, and keeps the module
  -- valid.
  pub convert_import_fn_to_local-IsValid :
      (m : ModuleIr G M) (p : ℕ) (f : Function) (i : ImportedFunction) (l : LocalFunction)
      → IsValid m
      → get_elem? m.functions.functions p ≡ some f
      → f.kind ≡ import_kind i
      → f.deleted ≡ false
      → l.func_id ≡ p
      → (m' : ModuleIr G M) × (convert_import_fn_to_local m p l ≡ ok (true, m'))
        × IsValid m'
        × (get_elem? m'.functions.functions p ≡ some (record f { kind = local_kind l }))
  convert_import_fn_to_local-IsValid m p f i l h at kind live id =
      let (m', done, valid, there, import) = delete_func-IsValid m p f h at live in
      let g = record f { kind = local_kind l; deleted = false } in
      let same : g ≡ record f { kind = local_kind l } =
        ap (λ d. record f { kind = local_kind l; deleted = d }) (sym live) in
      (
        with_function m' p g,
        convert-run m m' p f (record f { deleted = true }) i l at kind done there,
        record {
          in_step = λ e. valid.in_step e ∙ sym (length-set m'.functions.functions p g);
          aligned =
              import_ids-set m'.functions.functions p (record f { deleted = true }) g there
                (λ xs. refl) (λ xs. refl)
              ∙ valid.aligned;
          numbered = set-AreNumbered m'.functions.functions p g valid.numbered id;
        },
        get_elem?-set_self m'.functions.functions p g (get_elem?-lt m'.functions.functions p there)
            ∙ ap some same,
      )
