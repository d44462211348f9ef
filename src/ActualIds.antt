-- ===== src/ActualIds.antt =====
-- encode/component/assign.rs: the actual IDs that an encoding gives to the items of each scope, by
-- the IDs that were assumed for them.
pub mod Laws
mod Tests
use wirm.Base.{ℕ, suc, ◌-◌, Bool, not, ◌&&◌, Option, none, some, List, [], ◌∷◌, if◌then◌else◌}
use wirm.Base.Maps.{HashMap, get, insert}
use wirm.Base.Results.{Result, ok, panic, or_panic, ◌>>=◌}
use wirm.Space.{Space}
use wirm.IndexScope.{IndexedRef, scope_at_depth, curr_scope_id}

pub record IdTracker : Type 0 where
  pub actual_ids : HashMap ℕ
  pub current_id : ℕ

abbrev pub default_tracker : IdTracker
default_tracker = record { actual_ids = []; current_id = 0 }

unfoldable pub tracker_assign : IdTracker → ℕ → IdTracker
tracker_assign t assumed_id = record {
  actual_ids = insert assumed_id t.current_id t.actual_ids;
  current_id = suc t.current_id;
}

unfoldable pub lookup_actual_id : IdTracker → ℕ → Option ℕ
lookup_actual_id t id = get id t.actual_ids

pub record IdsForScope : Type 0 where
  comp : IdTracker
  comp_func : IdTracker
  comp_val : IdTracker
  comp_type : IdTracker
  comp_inst : IdTracker
  core_inst : IdTracker
  core_module : IdTracker
  core_type : IdTracker
  core_func : IdTracker
  core_memory : IdTracker
  core_table : IdTracker
  core_global : IdTracker
  core_tag : IdTracker

abbrev pub default_ids : IdsForScope
default_ids = record {
  comp = default_tracker;
  comp_func = default_tracker;
  comp_val = default_tracker;
  comp_type = default_tracker;
  comp_inst = default_tracker;
  core_inst = default_tracker;
  core_module = default_tracker;
  core_type = default_tracker;
  core_func = default_tracker;
  core_memory = default_tracker;
  core_table = default_tracker;
  core_global = default_tracker;
  core_tag = default_tracker;
}

unfoldable pub get_tracker : IdsForScope → Space → Option IdTracker
get_tracker s Space.comp = some s.comp
get_tracker s Space.comp_func = some s.comp_func
get_tracker s Space.comp_val = some s.comp_val
get_tracker s Space.comp_type = some s.comp_type
get_tracker s Space.comp_inst = some s.comp_inst
get_tracker s Space.core_inst = some s.core_inst
get_tracker s Space.core_module = some s.core_module
get_tracker s Space.core_type = some s.core_type
get_tracker s Space.core_func = some s.core_func
get_tracker s Space.core_memory = some s.core_memory
get_tracker s Space.core_table = some s.core_table
get_tracker s Space.core_global = some s.core_global
get_tracker s Space.core_tag = some s.core_tag
get_tracker s Space.na = none

-- A write through `get_space_mut`.
unfoldable pub with_tracker : IdsForScope → Space → IdTracker → IdsForScope
with_tracker s Space.comp t = record s { comp = t }
with_tracker s Space.comp_func t = record s { comp_func = t }
with_tracker s Space.comp_val t = record s { comp_val = t }
with_tracker s Space.comp_type t = record s { comp_type = t }
with_tracker s Space.comp_inst t = record s { comp_inst = t }
with_tracker s Space.core_inst t = record s { core_inst = t }
with_tracker s Space.core_module t = record s { core_module = t }
with_tracker s Space.core_type t = record s { core_type = t }
with_tracker s Space.core_func t = record s { core_func = t }
with_tracker s Space.core_memory t = record s { core_memory = t }
with_tracker s Space.core_table t = record s { core_table = t }
with_tracker s Space.core_global t = record s { core_global = t }
with_tracker s Space.core_tag t = record s { core_tag = t }
with_tracker s Space.na t = s

abbrev through : IdsForScope → Space → ℕ → Option IdTracker → IdsForScope
through s space assumed_id none = s
through s space assumed_id (some t) = with_tracker s space (tracker_assign t assumed_id)

-- `IdsForScope::assign_actual_id`.
unfoldable pub scope_assign : IdsForScope → Space → ℕ → IdsForScope
unfolding get_tracker
scope_assign s space assumed_id = through s space assumed_id (get_tracker s space)

-- `IdsForScope::lookup_actual_id_or_panic`.
unfoldable pub scope_lookup : IdsForScope → IndexedRef → Result ℕ
unfolding get_tracker lookup_actual_id
scope_lookup s r = or_panic (get_tracker s r.space) >>= λ t. or_panic (lookup_actual_id t r.index)

abbrev pub ActualIds : Type 0
ActualIds = HashMap IdsForScope

-- `entry(id).or_default()`.
abbrev or_default : Option IdsForScope → IdsForScope
or_default none = default_ids
or_default (some ids) = ids

unfoldable pub add_scope : ActualIds → ℕ → ActualIds
add_scope ids id = insert id (or_default (get id ids)) ids

-- `ActualIds::assign_actual_id`.
unfoldable pub assign_actual_id : ActualIds → ℕ → Space → ℕ → ActualIds
unfolding scope_assign
assign_actual_id ids id space assumed_id =
    insert id (scope_assign (or_default (get id ids)) space assumed_id) ids

-- `ActualIds::lookup_actual_id_or_panic`, in the scope at the reference's depth.
unfoldable pub lookup_actual_id_or_panic : ActualIds → List ℕ → IndexedRef → Result ℕ
unfolding scope_lookup scope_at_depth
lookup_actual_id_or_panic ids stack r = do
  scope_id ← scope_at_depth stack r.depth
  scope ← or_panic (get scope_id ids)
  scope_lookup scope r

-- `Assigner::assign_actual_id`: a node with a scope of its own has its ID in the parent's.
unfoldable pub assigner_assign : ActualIds → List ℕ → Bool → Bool → Space → ℕ → Result ActualIds
unfolding assign_actual_id scope_at_depth curr_scope_id
assigner_assign ids stack nested is_inner_node space assumed_id = do
  scope_id ← (if nested && not is_inner_node then scope_at_depth stack 1 else curr_scope_id stack)
  ok (assign_actual_id ids scope_id space assumed_id)
