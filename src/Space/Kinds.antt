-- ===== src/Space/Kinds.antt =====
-- `index_space_of` for the nodes of ir/component/idx_spaces.rs. The enums are wasmparser's, with
-- the variants that the code matches on and what it reads of them.
use wirm.Base.{◌≡◌, ◌⊎◌, refl, inl, inr}
use wirm.Space.{Space}

pub data ComponentExternalKind : Type 0 where
  module_kind func value type_kind instance_kind component : ComponentExternalKind

pub data ExternalKind : Type 0 where
  func memory table global tag func_exact : ExternalKind

pub data ComponentOuterAliasKind : Type 0 where
  module_kind core_type type_kind component : ComponentOuterAliasKind

pub data ComponentTypeRef : Type 0 where
  module_ref func value type_ref instance_ref component : ComponentTypeRef

pub data ComponentAlias : Type 0 where
  instance_export : ComponentExternalKind → ComponentAlias
  core_instance_export : ExternalKind → ComponentAlias
  outer : ComponentOuterAliasKind → ComponentAlias

pub data ComponentTypeDeclaration : Type 0 where
  core_type type_decl : ComponentTypeDeclaration
  alias_decl : ComponentAlias → ComponentTypeDeclaration
  export_decl import_decl : ComponentTypeRef → ComponentTypeDeclaration

pub data InstanceTypeDeclaration : Type 0 where
  core_type type_decl : InstanceTypeDeclaration
  alias_decl : ComponentAlias → InstanceTypeDeclaration
  export_decl : ComponentTypeRef → InstanceTypeDeclaration

pub data ModuleTypeDeclaration : Type 0 where
  type_decl export_decl outer_alias import_decl : ModuleTypeDeclaration

pub data CanonicalFunction : Type 0 where
  lower lift : CanonicalFunction
  resource_new resource_drop resource_drop_async resource_rep : CanonicalFunction
  thread_spawn_ref thread_spawn_indirect thread_new_indirect : CanonicalFunction
  task_return task_cancel subtask_drop subtask_cancel : CanonicalFunction
  context_get context_set : CanonicalFunction
  stream_cancel_read stream_cancel_write future_cancel_read future_cancel_write : CanonicalFunction
  future_new future_read future_write future_drop_readable future_drop_writable : CanonicalFunction
  stream_new stream_read stream_write stream_drop_readable stream_drop_writable : CanonicalFunction
  error_context_new error_context_debug_message error_context_drop : CanonicalFunction
  waitable_set_wait waitable_set_poll waitable_set_new waitable_set_drop : CanonicalFunction
  waitable_join thread_index thread_suspend thread_suspend_to_suspended : CanonicalFunction
  thread_suspend_to thread_unsuspend thread_yield_to_suspended thread_yield : CanonicalFunction
  thread_available_parallelism backpressure_inc backpressure_dec : CanonicalFunction

-- `ComponentExternalKind::index_space_of`.
unfoldable pub external_kind_space : ComponentExternalKind → Space
external_kind_space ComponentExternalKind.func = Space.comp_func
external_kind_space ComponentExternalKind.value = Space.comp_val
external_kind_space ComponentExternalKind.type_kind = Space.comp_type
external_kind_space ComponentExternalKind.instance_kind = Space.comp_inst
external_kind_space ComponentExternalKind.component = Space.comp
external_kind_space ComponentExternalKind.module_kind = Space.core_module

-- `ExternalKind::index_space_of`.
unfoldable pub core_kind_space : ExternalKind → Space
core_kind_space ExternalKind.func = Space.core_func
core_kind_space ExternalKind.table = Space.core_table
core_kind_space ExternalKind.memory = Space.core_memory
core_kind_space ExternalKind.global = Space.core_global
core_kind_space ExternalKind.tag = Space.core_tag
core_kind_space ExternalKind.func_exact = Space.core_func

-- `ComponentOuterAliasKind::index_space_of`.
unfoldable pub outer_kind_space : ComponentOuterAliasKind → Space
outer_kind_space ComponentOuterAliasKind.module_kind = Space.core_module
outer_kind_space ComponentOuterAliasKind.core_type = Space.core_type
outer_kind_space ComponentOuterAliasKind.type_kind = Space.comp_type
outer_kind_space ComponentOuterAliasKind.component = Space.comp

-- `ComponentExport::index_space_of`, by the kind of the export.
unfoldable pub export_space : ComponentExternalKind → Space
export_space ComponentExternalKind.module_kind = Space.core_module
export_space ComponentExternalKind.func = Space.comp_func
export_space ComponentExternalKind.value = Space.comp_val
export_space ComponentExternalKind.type_kind = Space.comp_type
export_space ComponentExternalKind.instance_kind = Space.comp_inst
export_space ComponentExternalKind.component = Space.comp_inst

-- `ComponentTypeRef::index_space_of`: where the index inside the reference is looked up.
unfoldable pub type_ref_space : ComponentTypeRef → Space
type_ref_space ComponentTypeRef.value = Space.comp_val
type_ref_space ComponentTypeRef.instance_ref = Space.comp_inst
type_ref_space ComponentTypeRef.component = Space.comp_type
type_ref_space ComponentTypeRef.module_ref = Space.core_module
type_ref_space ComponentTypeRef.func = Space.comp_type
type_ref_space ComponentTypeRef.type_ref = Space.comp_type

-- The space of the item that an import or an export of this type introduces.
unfoldable pub comp_type_ref_item_space : ComponentTypeRef → Space
comp_type_ref_item_space ComponentTypeRef.func = Space.comp_func
comp_type_ref_item_space ComponentTypeRef.value = Space.comp_val
comp_type_ref_item_space ComponentTypeRef.type_ref = Space.comp_type
comp_type_ref_item_space ComponentTypeRef.instance_ref = Space.comp_inst
comp_type_ref_item_space ComponentTypeRef.component = Space.comp
comp_type_ref_item_space ComponentTypeRef.module_ref = Space.core_module

-- `ComponentAlias::index_space_of`, its inner matches written out.
unfoldable pub alias_space : ComponentAlias → Space
unfolding external_kind_space core_kind_space outer_kind_space
alias_space (instance_export kind) = external_kind_space kind
alias_space (core_instance_export kind) = core_kind_space kind
alias_space (outer kind) = outer_kind_space kind

-- `CanonicalFunction::index_space_of`.
unfoldable pub canon_space : CanonicalFunction → Space
canon_space lift = Space.comp_func
canon_space thread_spawn_ref = Space.comp_func
canon_space thread_spawn_indirect = Space.comp_func
canon_space _ = Space.core_func

-- `ComponentTypeDeclaration::index_space_of`.
unfoldable pub component_decl_space : ComponentTypeDeclaration → Space
unfolding alias_space comp_type_ref_item_space
component_decl_space ComponentTypeDeclaration.core_type = Space.core_type
component_decl_space ComponentTypeDeclaration.type_decl = Space.comp_type
component_decl_space (ComponentTypeDeclaration.alias_decl a) = alias_space a
component_decl_space (ComponentTypeDeclaration.export_decl ty) = comp_type_ref_item_space ty
component_decl_space (ComponentTypeDeclaration.import_decl ty) = comp_type_ref_item_space ty

-- `InstanceTypeDeclaration::index_space_of`.
unfoldable pub instance_decl_space : InstanceTypeDeclaration → Space
unfolding alias_space comp_type_ref_item_space
instance_decl_space InstanceTypeDeclaration.core_type = Space.core_type
instance_decl_space InstanceTypeDeclaration.type_decl = Space.comp_type
instance_decl_space (InstanceTypeDeclaration.alias_decl a) = alias_space a
instance_decl_space (InstanceTypeDeclaration.export_decl ty) = comp_type_ref_item_space ty

-- `ModuleTypeDeclaration::index_space_of`, with those of `TypeRef` and `OuterAliasKind`.
unfoldable pub module_decl_space : ModuleTypeDeclaration → Space
module_decl_space ModuleTypeDeclaration.type_decl = Space.core_type
module_decl_space ModuleTypeDeclaration.export_decl = Space.core_type
module_decl_space outer_alias = Space.core_type
module_decl_space ModuleTypeDeclaration.import_decl = Space.core_type

-- The space that an alias of a kind of item and an export of it take: the two agree but on
-- components, which an export counts among the instances.
export_space-external_kind_space :
    (kind : ComponentExternalKind)
    → (kind ≡ ComponentExternalKind.component) ⊎ (export_space kind ≡ external_kind_space kind)
unfolding export_space external_kind_space
export_space-external_kind_space ComponentExternalKind.component = inl refl
export_space-external_kind_space ComponentExternalKind.func = inr refl
export_space-external_kind_space ComponentExternalKind.value = inr refl
export_space-external_kind_space ComponentExternalKind.type_kind = inr refl
export_space-external_kind_space ComponentExternalKind.instance_kind = inr refl
export_space-external_kind_space ComponentExternalKind.module_kind = inr refl
