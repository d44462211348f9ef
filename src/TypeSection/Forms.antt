-- ===== src/TypeSection/Forms.antt =====
-- ir/module/module_types.rs: the ways to add a type. `from_module_index` is wasmparser's. The forms
-- without a tag are those with the default one.
use wirm.Base.{ℕ, Bool, true, false, Option, none, some, List, [], length}
use wirm.Instr.{Tag}
use wirm.Body.{DataType}
use wirm.TypeSection.{Attrs, func_type, array_type, struct_type, ModuleTypes, add_type}

abbrev pub default_tag : Tag
default_tag = record { bytes = [] }

module _ {P : Type 0} (same_index : P → P → Bool) where
  -- The attributes of the short forms.
  abbrev final_attrs : Option ℕ → Option ℕ → Option Tag → Attrs P
  final_attrs descriptor describes tag = record {
    super_type = none;
    is_final = true;
    shared = false;
    descriptor = descriptor;
    describes = describes;
    tag = tag;
  }

  unfoldable pub add_func_type_internal :
      ModuleTypes P → List DataType → List DataType → Option Tag → ℕ × ModuleTypes P
  unfolding add_type
  add_func_type_internal m param ret tag =
      add_type same_index m (func_type param ret (final_attrs none none tag)) (length m.types)

  unfoldable pub add_array_type_internal :
      ModuleTypes P → DataType → Bool → Option ℕ → Option ℕ → Option Tag → ℕ × ModuleTypes P
  unfolding add_type
  add_array_type_internal m field_type mutable descriptor describes tag =
      add_type same_index m (array_type field_type mutable (final_attrs descriptor describes tag))
        (length m.types)

  unfoldable pub add_struct_type_internal :
      ModuleTypes P
      → List DataType
      → List Bool
      → Option ℕ
      → Option ℕ
      → Option Tag
      → ℕ × ModuleTypes P
  unfolding add_type
  add_struct_type_internal m field_type mutable descriptor describes tag =
      add_type same_index m (struct_type field_type mutable (final_attrs descriptor describes tag))
        (length m.types)

  module _ (from_module_index : ℕ → Option P) where
    -- `match super_type { None => None, Some(id) => PackedIndex::from_module_index(*id) }`
    abbrev pack_super : Option ℕ → Option P
    pack_super none = none
    pack_super (some id) = from_module_index id

    abbrev all_attrs : Option ℕ → Bool → Bool → Option ℕ → Option ℕ → Option Tag → Attrs P
    all_attrs super_type is_final shared descriptor describes tag = record {
      super_type = pack_super super_type;
      is_final = is_final;
      shared = shared;
      descriptor = descriptor;
      describes = describes;
      tag = tag;
    }

    unfoldable pub add_func_type_with_params_internal :
        ModuleTypes P
        → List DataType
        → List DataType
        → Option ℕ
        → Bool
        → Bool
        → Option ℕ
        → Option ℕ
        → Option Tag
        → ℕ × ModuleTypes P
    unfolding add_type
    add_func_type_with_params_internal m param ret super_type is_final shared descriptor describes
          tag =
        add_type same_index m
          (func_type param ret (all_attrs super_type is_final shared descriptor describes tag))
          (length m.types)

    unfoldable pub add_array_type_with_params_internal :
        ModuleTypes P
        → DataType
        → Bool
        → Option ℕ
        → Bool
        → Bool
        → Option ℕ
        → Option ℕ
        → Option Tag
        → ℕ × ModuleTypes P
    unfolding add_type
    add_array_type_with_params_internal m field_type mutable super_type is_final shared descriptor
          describes tag =
        add_type same_index m
          (array_type field_type mutable
            (all_attrs super_type is_final shared descriptor describes tag))
          (length m.types)

    unfoldable pub add_struct_type_with_params_internal :
        ModuleTypes P
        → List DataType
        → List Bool
        → Option ℕ
        → Bool
        → Bool
        → Option ℕ
        → Option ℕ
        → Option Tag
        → ℕ × ModuleTypes P
    unfolding add_type
    add_struct_type_with_params_internal m field_type mutable super_type is_final shared descriptor
          describes tag =
        add_type same_index m
          (struct_type field_type mutable
            (all_attrs super_type is_final shared descriptor describes tag))
          (length m.types)

  -- The forms with the user's tag or the default one.
  unfoldable pub add_func_type :
      ModuleTypes P → List DataType → List DataType → Tag → ℕ × ModuleTypes P
  unfolding add_func_type_internal
  add_func_type m params results tag = add_func_type_internal m params results (some tag)

  unfoldable pub add_array_type :
      ModuleTypes P → DataType → Bool → Option ℕ → Option ℕ → Tag → ℕ × ModuleTypes P
  unfolding add_array_type_internal
  add_array_type m field_type mutable descriptor describes tag =
      add_array_type_internal m field_type mutable descriptor describes (some tag)

  unfoldable pub add_struct_type :
      ModuleTypes P → List DataType → List Bool → Option ℕ → Option ℕ → Tag → ℕ × ModuleTypes P
  unfolding add_struct_type_internal
  add_struct_type m field_type mutable descriptor describes tag =
      add_struct_type_internal m field_type mutable descriptor describes (some tag)

  module _ (from_module_index : ℕ → Option P) where
    unfoldable pub add_func_type_with_params :
        ModuleTypes P
        → List DataType
        → List DataType
        → Option ℕ
        → Bool
        → Bool
        → Option ℕ
        → Option ℕ
        → Tag
        → ℕ × ModuleTypes P
    unfolding add_func_type_with_params_internal
    add_func_type_with_params m param ret super_type is_final shared descriptor describes tag =
        add_func_type_with_params_internal from_module_index m param ret super_type is_final shared
          descriptor describes (some tag)

    unfoldable pub add_array_type_with_params :
        ModuleTypes P
        → DataType
        → Bool
        → Option ℕ
        → Bool
        → Bool
        → Option ℕ
        → Option ℕ
        → Tag
        → ℕ × ModuleTypes P
    unfolding add_array_type_with_params_internal
    add_array_type_with_params m field_type mutable super_type is_final shared descriptor describes
          tag =
        add_array_type_with_params_internal from_module_index m field_type mutable super_type
          is_final shared descriptor describes (some tag)

    unfoldable pub add_struct_type_with_params :
        ModuleTypes P
        → List DataType
        → List Bool
        → Option ℕ
        → Bool
        → Bool
        → Option ℕ
        → Option ℕ
        → Tag
        → ℕ × ModuleTypes P
    unfolding add_struct_type_with_params_internal
    add_struct_type_with_params m field_type mutable super_type is_final shared descriptor describes
          tag =
        add_struct_type_with_params_internal from_module_index m field_type mutable super_type
          is_final shared descriptor describes (some tag)
