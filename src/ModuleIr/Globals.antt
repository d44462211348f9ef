-- ===== src/ModuleIr/Globals.antt =====
-- ir/module/module_globals.rs: the globals of a module. `T` is wasmparser's `GlobalType`, and `E`
-- the type of initial expressions, which are only passed on. Tags are not modelled.
use wirm.Base.{
  ℕ, Bool, true, false, Option, none, some, List, [], ◌∷◌, ◌++◌, length, get_elem?, set,
}
use wirm.Base.Results.{Result, ok, err, Error, unknown_id, with_id, or_panic, ◌>>=◌}
use wirm.Reorder.{Item}

pub record LocalGlobal (T E : Type 0) : Type 0 where
  pub global_id : ℕ
  pub ty : T
  pub init_expr : E

pub record ImportedGlobal (T : Type 0) : Type 0 where
  pub import_id : ℕ
  pub import_global_id : ℕ
  pub ty : T

pub data GlobalKind (T E : Type 0) : Type 0 where
  local_global : LocalGlobal T E → GlobalKind T E
  import_global : ImportedGlobal T → GlobalKind T E

pub record Global (T E : Type 0) : Type 0 where
  pub kind : GlobalKind T E
  pub deleted : Bool

pub record ModuleGlobals (G : Type 0) : Type 0 where
  pub globals : List G
  pub recalculate_ids : Bool

abbrev pub no_globals : {G : Type 0} → ModuleGlobals G
no_globals = record { globals = []; recalculate_ids = false }

abbrev pub unknown_global : ℕ → Error
unknown_global id = unknown_id (with_id "Cannot update requested global's init_expr, id: " id "")

module _ {T E : Type 0} where
  abbrev pub id_of_kind : GlobalKind T E → ℕ
  id_of_kind (local_global l) = l.global_id
  id_of_kind (import_global i) = i.import_global_id

  abbrev pub is_import_kind : GlobalKind T E → Bool
  is_import_kind (local_global l) = false
  is_import_kind (import_global i) = true

  instance abbrev pub global_Item : Item (Global T E)
  global_Item = record {
    get_id = λ g. id_of_kind g.kind;
    is_import = λ g. is_import_kind g.kind;
    is_deleted = λ g. g.deleted;
  }

  abbrev pub kind_with_id : GlobalKind T E → ℕ → GlobalKind T E
  kind_with_id (local_global l) id = local_global (record l { global_id = id })
  kind_with_id (import_global i) id = import_global (record i { import_global_id = id })

  unfoldable pub set_id : Global T E → ℕ → Global T E
  set_id g id = record g { kind = kind_with_id g.kind id }

  unfoldable pub add : ModuleGlobals (Global T E) → Global T E → ℕ × ModuleGlobals (Global T E)
  unfolding set_id
  add m global =
      let id = length m.globals in (id, record m { globals = m.globals ++ set_id global id ∷ [] })

  -- What `delete` does to the global that it finds.
  abbrev delete_at : List (Global T E) → ℕ → Option (Global T E) → List (Global T E)
  delete_at globals id none = globals
  delete_at globals id (some g) = set globals id (record g { deleted = true })

  unfoldable pub delete : ModuleGlobals (Global T E) → ℕ → ModuleGlobals (Global T E)
  delete m id = record m {
    globals = delete_at m.globals id (get_elem? m.globals id);
    recalculate_ids = true;
  }

  unfoldable pub get_kind : ModuleGlobals (Global T E) → ℕ → Result (GlobalKind T E)
  get_kind m global_id = do g ← or_panic (get_elem? m.globals global_id); ok g.kind

  abbrev set_init_expr :
      ModuleGlobals (Global T E) → ℕ → E → Option (Global T E) → Result (ModuleGlobals (Global T E))
  set_init_expr m global_id new_expr none = err (unknown_global global_id)
  set_init_expr m global_id new_expr (some g) = elim g.kind [
    | local_global l ↦ ok (record m {
      globals =
          set m.globals global_id
            (record g { kind = local_global (record l { init_expr = new_expr }) });
    })
    | import_global i ↦ err (unknown_global global_id)
  ]

  unfoldable pub mod_init_expr :
      ModuleGlobals (Global T E) → ℕ → E → Result (ModuleGlobals (Global T E))
  mod_init_expr m global_id new_expr =
      set_init_expr m global_id new_expr (get_elem? m.globals global_id)
