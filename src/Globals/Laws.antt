-- ===== src/Globals/Laws.antt =====
-- The globals of a module (ir/module/mod.rs) are numbered by their positions while they are added and
-- deleted, and an imported one names its import.
use wirm.Base.{
  Bool, ℕ, suc, ◌-◌, ◌≡◌, ◌<◌, refl, sym, ap, ◌∙◌, true, false, some, List, [], ◌∷◌, ◌++◌, length,
  length-set, get_elem?, get_elem?_of_lt, get_elem?-lt, get_elem?-set_self, set, arith, ltb,
  Bool-cases, inl, inr, if◌then◌else◌, length-append, get_elem?-append_self, get_elem?-snoc,
  get_elem?-set_cases,
}
use wirm.Base.Results.{ok}
use wirm.ModuleIr.Globals.{
  Global, GlobalKind, local_global, import_global, id_of_kind, kind_with_id, set_id, add, delete,
  get_kind,
}
use wirm.ModuleIr.Imports
use wirm.ModuleIr.{add_import}
use wirm.Globals.{
  Host, global_import, add_global_internal, add_global, add_imported_global, delete_global,
}
use Prim.Native.String.{String}

module _ {T E : Type 0} where
  -- Each global's ID is its index.
  abbrev pub AreNumbered : List (Global T E) → Type 0
  AreNumbered gs = (p : ℕ) (g : Global T E) → get_elem? gs p ≡ some g → id_of_kind g.kind ≡ p

  id_of_kind-with_id : (k : GlobalKind T E) (id : ℕ) → id_of_kind (kind_with_id k id) ≡ id
  id_of_kind-with_id (local_global l) id = refl
  id_of_kind-with_id (import_global i) id = refl

  snoc-AreNumbered :
      (gs : List (Global T E)) (g : Global T E)
      → AreNumbered gs
      → AreNumbered (gs ++ set_id g (length gs) ∷ [])
  unfolding set_id
  snoc-AreNumbered gs g h p x at = elim (get_elem?-snoc gs (set_id g (length gs)) p x at) [
    | inl old ↦ h p x old
    | inr (new, last) ↦
        ap (λ y. id_of_kind y.kind) new ∙ id_of_kind-with_id g.kind (length gs) ∙ sym last
  ]

  set-AreNumbered :
      (gs : List (Global T E)) (p : ℕ) (g : Global T E)
      → AreNumbered gs
      → id_of_kind g.kind ≡ p
      → AreNumbered (set gs p g)
  set-AreNumbered gs p g h e q x at = elim (get_elem?-set_cases gs p g q x at) [
    | inl old ↦ h q x old
    | inr (new, same) ↦ ap (λ y. id_of_kind y.kind) new ∙ e ∙ sym same
  ]

-- `num_local_globals` counts every global that was added, but without any the imported ones are all
-- there are.
pub record IsValid {T E M : Type 0} (m : Host T E M) : Type 0 where
  pub in_step : m.num_local_globals ≡ 0 → m.imports.num_globals ≡ length m.globals.globals
  pub numbered : AreNumbered m.globals.globals

module _ {T E M : Type 0} where
  -- The global that `add_global` makes, and the one that `add_imported_global` makes.
  abbrev pub new_local : Host T E M → E → T → Global T E
  new_local m init_expr ty = record {
    kind =
        local_global
          (record { global_id = length m.globals.globals; ty = ty; init_expr = init_expr });
    deleted = false;
  }

  abbrev pub new_imported : Host T E M → T → Global T E
  new_imported m ty = record {
    kind = import_global (record {
      import_id = length m.imports.imports;
      import_global_id = length m.globals.globals;
      ty = ty;
    });
    deleted = false;
  }

  -- x
  pub add_global-IsValid :
      (m : Host T E M) (init_expr : E) (ty : T)
      → IsValid m
      → IsValid (add_global m init_expr ty).1
        × (get_elem? (add_global m init_expr ty).1.globals.globals (add_global m init_expr ty).0
            ≡ some (new_local m init_expr ty))
  unfolding add_global add_global_internal add set_id
  add_global-IsValid m init_expr ty h = (
    record {
      in_step = λ e. cc;
      numbered = snoc-AreNumbered m.globals.globals (new_local m init_expr ty) h.numbered;
    },
    get_elem?-append_self m.globals.globals (new_local m init_expr ty) [],
  )

  next_id :
      (m : Host T E M)
      → IsValid m
      → (if ltb 0 m.num_local_globals then length m.globals.globals else m.imports.num_globals)
        ≡ length m.globals.globals
  next_id m h = elim (Bool-cases (ltb 0 m.num_local_globals)) [
    | inl t ↦ rw t refl
    | inr f ↦ rw f (h.in_step (ground (arith, f)))
  ]

  -- If each global's ID is its index, and without local globals the counted global imports are
  -- all globals, then `add_imported_global` succeeds, the two IDs that it gives are those of the
  -- new global and of its import, and the two conditions still hold.
  pub add_imported_global-IsValid :
      (m : Host T E M) (module_name name : String) (ty : T)
      → IsValid m
      → (id imp_id : ℕ) × (m' : Host T E M) × (add_imported_global m module_name name ty
          ≡ ok ((id, imp_id), m'))
        × IsValid m'
        × (get_elem? m'.globals.globals id ≡ some (new_imported m ty))
        × (get_elem? m'.imports.imports imp_id ≡ some (global_import module_name name))
  unfolding add_imported_global add_import add_global_internal add set_id Imports.add
  add_imported_global-IsValid m module_name name ty h =
      let i = global_import module_name name in
      let g = new_imported m ty in
      let last : length (m.imports.imports ++ i ∷ []) - 1 ≡ length m.imports.imports =
        omega (arith, length-append m.imports.imports (i ∷ [])) in
      (
        length m.globals.globals,
        length m.imports.imports,
        record m {
          imports = record m.imports {
            imports = m.imports.imports ++ i ∷ [];
            num_globals = suc m.imports.num_globals;
            num_globals_added = suc m.imports.num_globals_added;
          };
          globals = record { globals = m.globals.globals ++ g ∷ []; recalculate_ids = true };
          num_local_globals = suc m.num_local_globals;
        },
        rw (next_id m h, last) refl,
        record { in_step = λ e. cc; numbered = snoc-AreNumbered m.globals.globals g h.numbered },
        get_elem?-append_self m.globals.globals g [],
        get_elem?-append_self m.imports.imports i [],
      )

  -- The import that a global has is there.
  abbrev pub HasImport : Host T E M → GlobalKind T E → Type 0
  HasImport m (local_global l) = Unit
  HasImport m (import_global i) = i.import_id < length m.imports.imports

  -- What `delete_global` does to the import section.
  abbrev pub IsImportDeleted : Host T E M → GlobalKind T E → Type 0
  IsImportDeleted m (local_global l) = Unit
  IsImportDeleted m (import_global i) =
      (import : Imports.Import) × (get_elem? m.imports.imports i.import_id ≡ some import)
      × (import.deleted ≡ true)

  delete-numbered :
      (m : Host T E M) (id : ℕ) (g : Global T E)
      → IsValid m
      → get_elem? m.globals.globals id ≡ some g
      → AreNumbered (set m.globals.globals id (record g { deleted = true }))
  delete-numbered m id g h at =
      set-AreNumbered m.globals.globals id (record g { deleted = true }) h.numbered
        (h.numbered id g at)

  -- If each global's ID is its index, and without local globals the counted global imports are
  -- all globals, then `delete_global` of any global, the last one or not, whose import, if it
  -- has one, is there succeeds, marks the global and its import as deleted, and the two
  -- conditions still hold.
  pub delete_global-IsValid :
      (m : Host T E M) (id : ℕ) (kind : GlobalKind T E) (deleted : Bool)
      → IsValid m
      → get_elem? m.globals.globals id ≡ some (record { kind = kind; deleted = deleted })
      → HasImport m kind
      → (m' : Host T E M) × (delete_global m id ≡ ok m')
        × IsValid m'
        × (get_elem? m'.globals.globals id ≡ some (record { kind = kind; deleted = true }))
        × IsImportDeleted m' kind
  unfolding delete_global delete get_kind Imports.delete
  delete_global-IsValid m id (local_global l) deleted h at has =
      let g : Global T E = record { kind = local_global l; deleted = true } in
      let here = get_elem?-set_self m.globals.globals id g (get_elem?-lt m.globals.globals id at) in
      (
        record m {
          globals = record { globals = set m.globals.globals id g; recalculate_ids = true };
        },
        rw (at, here) refl,
        record {
          in_step = λ e. h.in_step e ∙ sym (length-set m.globals.globals id g);
          numbered = delete-numbered m id _ h at;
        },
        here,
        tt,
      )
  delete_global-IsValid m id (import_global i) deleted h at has =
      let g : Global T E = record { kind = import_global i; deleted = true } in
      let here = get_elem?-set_self m.globals.globals id g (get_elem?-lt m.globals.globals id at) in
      let (import, found) = get_elem?_of_lt m.imports.imports i.import_id has in
      let import' : Imports.Import = record import { deleted = true } in
      (
        record m {
          imports = record m.imports { imports = set m.imports.imports i.import_id import' };
          globals = record { globals = set m.globals.globals id g; recalculate_ids = true };
        },
        rw (at, here, found) refl,
        record {
          in_step = λ e. h.in_step e ∙ sym (length-set m.globals.globals id g);
          numbered = delete-numbered m id _ h at;
        },
        here,
        (import', get_elem?-set_self m.imports.imports i.import_id import' has, refl),
      )
