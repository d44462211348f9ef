-- ===== src/Space.antt =====
-- ir/component/idx_spaces.rs and ir/component/section.rs: the index spaces of a component, the
-- sections of its encoding, and the four vectors that an item of a space can stand in.
pub mod Kinds
use wirm.Base.{Option, none, some}

pub data Space : Type 0 where
  comp comp_func comp_val comp_type comp_inst : Space
  core_inst core_module core_type core_func core_memory core_table core_global core_tag : Space
  na : Space

pub data ComponentSection : Type 0 where
  core_module alias_section core_type comp_type component_import component_export : ComponentSection
  core_instance component_instance canon custom component component_start : ComponentSection

pub data SpaceSubtype : Type 0 where
  exported imported aliased main : SpaceSubtype
