-- ===== src/ModuleIr/Laws.antt =====
-- The functions of a module and its import section stay in step while functions are added and
-- deleted, so that the encoded function indices of the imports follow the import section.
use wirm.Base.{
  ℕ, suc, ◌+◌, ◌-◌, ◌≡◌, refl, sym, ap, ◌∙◌, true, false, Option, none, some, List, [], ◌∷◌, ◌++◌,
  length, get_elem?, set, arith, ltb, Bool-cases, inl, inr, if◌then◌else◌, length-append,
  set-append_self, get_elem?-append_self, get_elem?-snoc, get_elem?-set_cases,
}
use wirm.Base.Results.{ok}
use mathlib.Core.List.{append-nil}
use wirm.Body.{Body}
use wirm.ModuleIr.Funcs.{
  Function, Functions, FuncKind, local_kind, import_kind, LocalFunction, ImportedFunction,
  id_of_kind, new_function, new_local, set_local_fn_name, next_id, get_function, put, set_kind,
}
use wirm.ModuleIr.Funcs
use wirm.ModuleIr.{ModuleIr, add_import_func, add_local_func, func_import}
use wirm.ModuleIr.Aligned.{
  live_imports, import_ids, live_imports-append, import_ids-append, import_ids-local,
}
use Prim.Native.String.{String}

-- Each function's ID is its index.
abbrev pub AreNumbered : List Function → Type 0
AreNumbered fs = (p : ℕ) (f : Function) → get_elem? fs p ≡ some f → id_of_kind f.kind ≡ p

pub record IsValid {G M : Type 0} (m : ModuleIr G M) : Type 0 where
  -- Without local functions the imported ones are all there are.
  pub in_step : m.num_local_functions ≡ 0 → m.imports.num_funcs ≡ length m.functions.functions
  -- The live imported functions follow the live function imports.
  pub aligned : import_ids m.functions.functions ≡ live_imports 0 m.imports.imports
  pub numbered : AreNumbered m.functions.functions

snoc-AreNumbered :
    (fs : List Function) (f : Function)
    → AreNumbered fs
    → id_of_kind f.kind ≡ length fs
    → AreNumbered (fs ++ f ∷ [])
snoc-AreNumbered fs f h e p g at = elim (get_elem?-snoc fs f p g at) [
  | inl old ↦ h p g old
  | inr (new, last) ↦ ap (λ x. id_of_kind x.kind) new ∙ e ∙ sym last
]

pub set-AreNumbered :
    (fs : List Function) (p : ℕ) (f : Function)
    → AreNumbered fs
    → id_of_kind f.kind ≡ p
    → AreNumbered (set fs p f)
set-AreNumbered fs p f h e q g at = elim (get_elem?-set_cases fs p f q g at) [
  | inl old ↦ h q g old
  | inr (new, same) ↦ ap (λ x. id_of_kind x.kind) new ∙ e ∙ sym same
]

module _ {G M : Type 0} where
  -- The ID that an import of a function gets is the next one.
  add_import-id :
      (m : ModuleIr G M)
      → IsValid m
      → (if ltb 0 m.num_local_functions then length m.functions.functions else m.imports.num_funcs)
        ≡ length m.functions.functions
  add_import-id m h = elim (Bool-cases (ltb 0 m.num_local_functions)) [
    | inl t ↦ rw t refl
    | inr f ↦ rw f (h.in_step (ground (arith, f)))
  ]

  abbrev pub imported : ModuleIr G M → String → ℕ → Function
  imported m name ty_id = record {
    kind = import_kind (record {
      import_id = length m.imports.imports;
      import_fn_id = length m.functions.functions;
      ty_id = ty_id;
    });
    name = some name;
    deleted = false;
  }

  -- The module with the function and the import at the ends of their lists.
  abbrev with_import : ModuleIr G M → String → String → ℕ → ModuleIr G M
  with_import m module_name name ty_id = record m {
    imports = record m.imports {
      imports = m.imports.imports ++ func_import module_name name ty_id ∷ [];
      num_funcs = suc m.imports.num_funcs;
      num_funcs_added = suc m.imports.num_funcs_added;
    };
    functions = record {
      functions = m.functions.functions ++ imported m name ty_id ∷ [];
      recalculate_ids = true;
    };
  }

  with_import-IsValid :
      (m : ModuleIr G M) (module_name name : String) (ty_id : ℕ)
      → IsValid m
      → IsValid (with_import m module_name name ty_id)
  with_import-IsValid m module_name name ty_id h =
      let f = imported m name ty_id in
      let i = func_import module_name name ty_id in
      let zero_add : 0 + length m.imports.imports ≡ length m.imports.imports = omega arith in
      record {
        in_step = λ e. omega (arith, h.in_step e, length-append m.functions.functions (f ∷ []));
        aligned =
            import_ids-append m.functions.functions (f ∷ [])
            ∙ ap (λ l. l ++ length m.imports.imports ∷ []) h.aligned
            ∙ sym (
                live_imports-append 0 m.imports.imports (i ∷ [])
                ∙ ap (λ n. live_imports 0 m.imports.imports ++ live_imports n (i ∷ [])) zero_add);
        numbered = snoc-AreNumbered m.functions.functions f h.numbered refl;
      }

  -- In a valid module `add_import_func` succeeds; the two IDs it gives are those of the new
  -- function and of the new import, and the module stays valid.
  pub add_import_func-IsValid :
      (m : ModuleIr G M) (module_name name : String) (ty_id : ℕ)
      → IsValid m
      → (id imp_id : ℕ) × (m' : ModuleIr G M) × (add_import_func m module_name name ty_id
          ≡ ok ((id, imp_id), m'))
        × IsValid m'
        × (get_elem? m'.functions.functions id ≡ some (imported m name ty_id))
        × (get_elem? m'.imports.imports imp_id ≡ some (func_import module_name name ty_id))
  unfolding add_import_func Funcs.add_import_func
  add_import_func-IsValid m module_name name ty_id h =
      let i = func_import module_name name ty_id in
      let last : length (m.imports.imports ++ i ∷ []) - 1 ≡ length m.imports.imports =
        omega (arith, length-append m.imports.imports (i ∷ [])) in
      (
        length m.functions.functions,
        length m.imports.imports,
        with_import m module_name name ty_id,
        rw (add_import-id m h, last) refl,
        with_import-IsValid m module_name name ty_id h,
        get_elem?-append_self m.functions.functions (imported m name ty_id) [],
        get_elem?-append_self m.imports.imports i [],
      )

  -- The function that `add_local_func` makes.
  abbrev pub local_function : ModuleIr G M → Option String → LocalFunction → Function
  local_function m none l =
      new_function (local_kind (record l { func_id = length m.functions.functions })) none
  local_function m (some name) l = record {
    kind = local_kind (record l {
      func_id = length m.functions.functions;
      body = record l.body { name = some name };
    });
    name = some name;
    deleted = false;
  }

  abbrev with_local : ModuleIr G M → Function → ModuleIr G M
  with_local m f = record m {
    functions = record { functions = m.functions.functions ++ f ∷ []; recalculate_ids = true };
    num_local_functions = suc m.num_local_functions;
  }

  local-IsValid :
      (m : ModuleIr G M) (f : Function) (l : LocalFunction)
      → IsValid m
      → f.kind ≡ local_kind l
      → l.func_id ≡ length m.functions.functions
      → IsValid (with_local m f)
  local-IsValid m f l h kind id = record {
    in_step = λ e. absurd (omega (arith, e));
    aligned =
        import_ids-append m.functions.functions (f ∷ [])
        ∙ ap (λ r. import_ids m.functions.functions ++ r)
            (import_ids-local f.deleted f.kind l [] kind)
        ∙ append-nil (import_ids m.functions.functions)
        ∙ h.aligned;
    numbered = snoc-AreNumbered m.functions.functions f h.numbered (ap id_of_kind kind ∙ id);
  }

  with_local-IsValid :
      (m : ModuleIr G M) (name : Option String) (l : LocalFunction)
      → IsValid m
      → IsValid (with_local m (local_function m name l))
  unfolding new_function
  with_local-IsValid m none l h = local-IsValid m (local_function m none l) _ h refl refl
  with_local-IsValid m (some name) l h =
      local-IsValid m (local_function m (some name) l) _ h refl refl

  -- In a valid module `add_local_func` succeeds, gives the ID of the new function, which has
  -- that ID and the name, and the module stays valid.
  pub add_local_func-IsValid :
      (m : ModuleIr G M) (name : Option String) (ty num_params : ℕ) (body : Body)
      → IsValid m
      → (id : ℕ) × (m' : ModuleIr G M) × (add_local_func m name ty num_params body ≡ ok (id, m'))
        × IsValid m'
        × (get_elem? m'.functions.functions id
            ≡ some (local_function m name (new_local ty 0 body num_params)))
  unfolding add_local_func Funcs.add_local_func new_function next_id set_local_fn_name get_function
      put
  add_local_func-IsValid m none ty num_params body h =
      let f = local_function m none (new_local ty 0 body num_params) in
      (
        length m.functions.functions,
        with_local m f,
        refl,
        with_local-IsValid m none (new_local ty 0 body num_params) h,
        get_elem?-append_self m.functions.functions f [],
      )
  add_local_func-IsValid m (some name) ty num_params body h =
      let l = new_local ty 0 body num_params in
      let f = local_function m (some name) l in
      let g =
        new_function (local_kind (record l { func_id = length m.functions.functions }))
          (some name) in
      let found : get_elem? (m.functions.functions ++ g ∷ []) (length m.functions.functions)
          ≡ some g =
        get_elem?-append_self m.functions.functions g [] in
      (
        length m.functions.functions,
        with_local m f,
        rw found (
            ap
              (λ fs. ok (
                length m.functions.functions,
                record m {
                  functions = record { functions = fs; recalculate_ids = true };
                  num_local_functions = suc m.num_local_functions;
                },
              ))
              (set-append_self m.functions.functions g f [])),
        with_local-IsValid m (some name) l h,
        get_elem?-append_self m.functions.functions f [],
      )
