-- ===== src/IndexScope.antt =====
-- ir/component/idx_spaces.rs: `IndexScope`, the index spaces visible at one level of a component,
-- and `IndexStore`, the scopes by their IDs; ir/component/visitor/utils.rs: `ScopeStack`, the
-- scopes that a traversal is in.
pub mod Laws
pub mod Found
mod Tests
use wirm.Base.{
  ℕ, suc, ◌-◌, ◌∷◌, [], ◌++◌, List, Option, none, some, length, get_elem?, ltb, if◌then◌else◌,
}
use wirm.Base.Maps.{HashMap, get, insert}
use wirm.Base.Results.{Result, ok, panic, or_panic, ◌>>=◌}
use wirm.Space.{Space, ComponentSection}
use wirm.IdxSpace.{
  IdxSpace, Place, default_space, assign_assumed_id, lookup_assumed_id,
  lookup_assumed_id_with_subvec, index_from_assumed_id, index_from_assumed_id_no_cache,
}

pub record IndexScope : Type 0 where
  id : ℕ
  comp : IdxSpace
  comp_func : IdxSpace
  comp_val : IdxSpace
  comp_type : IdxSpace
  comp_inst : IdxSpace
  core_inst : IdxSpace
  core_module : IdxSpace
  core_type : IdxSpace
  core_func : IdxSpace
  core_memory : IdxSpace
  core_table : IdxSpace
  core_global : IdxSpace
  core_tag : IdxSpace

-- A reference, its depth resolved by the scope stack.
pub record IndexedRef : Type 0 where
  pub depth : ℕ
  pub space : Space
  pub index : ℕ

unfoldable pub new : ℕ → IndexScope
new id = record {
  id = id;
  comp = default_space;
  comp_func = default_space;
  comp_val = default_space;
  comp_type = default_space;
  comp_inst = default_space;
  core_inst = default_space;
  core_module = default_space;
  core_type = default_space;
  core_func = default_space;
  core_memory = default_space;
  core_table = default_space;
  core_global = default_space;
  core_tag = default_space;
}

unfoldable pub get_space : IndexScope → Space → Option IdxSpace
get_space s Space.comp = some s.comp
get_space s Space.comp_func = some s.comp_func
get_space s Space.comp_val = some s.comp_val
get_space s Space.comp_type = some s.comp_type
get_space s Space.comp_inst = some s.comp_inst
get_space s Space.core_inst = some s.core_inst
get_space s Space.core_module = some s.core_module
get_space s Space.core_type = some s.core_type
get_space s Space.core_func = some s.core_func
get_space s Space.core_memory = some s.core_memory
get_space s Space.core_table = some s.core_table
get_space s Space.core_global = some s.core_global
get_space s Space.core_tag = some s.core_tag
get_space s Space.na = none

-- A write through `get_space_mut`.
unfoldable pub with_space : IndexScope → Space → IdxSpace → IndexScope
with_space s Space.comp x = record s { comp = x }
with_space s Space.comp_func x = record s { comp_func = x }
with_space s Space.comp_val x = record s { comp_val = x }
with_space s Space.comp_type x = record s { comp_type = x }
with_space s Space.comp_inst x = record s { comp_inst = x }
with_space s Space.core_inst x = record s { core_inst = x }
with_space s Space.core_module x = record s { core_module = x }
with_space s Space.core_type x = record s { core_type = x }
with_space s Space.core_func x = record s { core_func = x }
with_space s Space.core_memory x = record s { core_memory = x }
with_space s Space.core_table x = record s { core_table = x }
with_space s Space.core_global x = record s { core_global = x }
with_space s Space.core_tag x = record s { core_tag = x }
with_space s Space.na x = s

-- An operation on the space through `get_space_mut`; none where there is no such space.
abbrev through {ℓ} :
    {A : Type ℓ}
    → IndexScope
    → Space
    → Option IdxSpace
    → (IdxSpace → A × IdxSpace)
    → Option A × IndexScope
through s space none f = (none, s)
through s space (some x) f = (some (f x).0, with_space s space (f x).1)

unfoldable pub assign : IndexScope → Space → ComponentSection → ℕ → Option ℕ × IndexScope
unfolding get_space
assign s space section curr_idx =
    through s space (get_space s space) (λ x. assign_assumed_id x section curr_idx)

-- The loop over items and their sections, one section for each item.
unfoldable pub assign_for : IndexScope → ℕ → List (Space × ComponentSection) → IndexScope
unfolding assign
assign_for s curr_idx [] = s
assign_for s curr_idx ((space, section) ∷ items) =
    assign_for (assign s space section curr_idx).1 (suc curr_idx) items

abbrev flat {ℓ} : {A : Type ℓ} → Option (Option A) → Option A
flat none = none
flat (some o) = o

abbrev looked_up : Option IdxSpace → (IdxSpace → Result (Option ℕ)) → Result ℕ
looked_up none f = panic
looked_up (some x) f = f x >>= or_panic

unfoldable pub lookup : IndexScope → Space → ComponentSection → ℕ → Result ℕ
unfolding get_space
lookup s space section vec_idx =
    looked_up (get_space s space) (λ x. lookup_assumed_id x section vec_idx)

unfoldable pub lookup_with_subvec : IndexScope → Space → ComponentSection → ℕ → ℕ → Result ℕ
unfolding get_space
lookup_with_subvec s space section vec_idx subvec_idx =
    looked_up (get_space s space) (λ x. lookup_assumed_id_with_subvec x section vec_idx subvec_idx)

unfoldable pub index_from : IndexScope → IndexedRef → Result (Place × IndexScope)
unfolding get_space
index_from s r =
    let (found, s') =
      through s r.space (get_space s r.space) (λ x. index_from_assumed_id x r.index) in
    or_panic (flat found) >>= λ place. ok (place, s')

unfoldable pub index_from_no_cache : IndexScope → IndexedRef → Result Place
unfolding get_space
index_from_no_cache s r =
    or_panic (get_space s r.space) >>= λ x. or_panic (index_from_assumed_id_no_cache x r.index)

pub record IndexStore : Type 0 where
  scopes : HashMap IndexScope
  next_id : ℕ

abbrev pub default_store : IndexStore
default_store = record { scopes = []; next_id = 0 }

unfoldable pub new_scope : IndexStore → ℕ × IndexStore
unfolding new
new_scope s =
    let id = s.next_id in
    (id, record { scopes = insert id (new id) s.scopes; next_id = suc s.next_id })

unfoldable pub store_assign :
    IndexStore → ℕ → Space → ComponentSection → ℕ → Result (Option ℕ × IndexStore)
unfolding assign
store_assign s id space section curr_idx = do
  scope ← or_panic (get id s.scopes)
  ok (
    (assign scope space section curr_idx).0,
    record s { scopes = insert id (assign scope space section curr_idx).1 s.scopes },
  )

unfoldable pub store_index_from_no_cache : IndexStore → ℕ → IndexedRef → Result Place
unfolding index_from_no_cache
store_index_from_no_cache s id r =
    or_panic (get id s.scopes) >>= λ scope. index_from_no_cache scope r

-- `ScopeStack`: the innermost scope stands last.
unfoldable pub enter_scope : List ℕ → ℕ → List ℕ
enter_scope stack id = stack ++ id ∷ []

-- `pop`: the last element and the rest.
unfoldable pub exit_scope : List ℕ → Result (ℕ × List ℕ)
exit_scope [] = panic
exit_scope (x ∷ []) = ok (x, [])
exit_scope (x ∷ y ∷ stack) = do (id, rest) ← exit_scope (y ∷ stack); ok (id, x ∷ rest)

unfoldable pub curr_scope_id : List ℕ → Result ℕ
curr_scope_id stack = or_panic (get_elem? stack (length stack - 1))

-- `self.stack.len() - depth.val() - 1` on `usize`: it wraps around below zero and the index is then
-- out of range, as it is where the first subtraction overflows.
unfoldable pub scope_at_depth : List ℕ → ℕ → Result ℕ
scope_at_depth stack depth =
    if ltb depth (length stack)
    then or_panic (get_elem? stack (length stack - depth - 1))
    else panic
