-- ===== src/SubIterator/Component.antt =====
-- subiterator/component_subiterator.rs: the cursor that walks the operators of every module of a
-- component. A missing entry of `metadata` is a panic.
use wirm.Base.{
  ℕ, zero, suc, Bool, true, false, not, ◌&&◌, Option, none, some, List, [], ◌∷◌, ◌++◌, ltb, ◌==◌,
  if◌then◌else◌,
}
use wirm.Base.Maps.{HashMap, get}
use wirm.Base.Results.{Result, ok, or_panic, ◌>>=◌}
use wirm.SubIterator.{ModuleSubIterator, reset_from_comp_iterator}
use wirm.SubIterator as Module

-- `ComponentSubIterator`
pub record ComponentSubIterator : Type 0 where
  pub curr_mod : ℕ
  pub num_mods : ℕ
  pub mod_iterator : ModuleSubIterator
  pub metadata : HashMap (List (ℕ × ℕ))
  pub skip_funcs : HashMap (List ℕ)

abbrev pub or_empty : Option (List ℕ) → List ℕ
or_empty none = []
or_empty (some l) = l

-- The functions of a module that are skipped.
unfoldable pub skip_of : HashMap (List ℕ) → ℕ → List ℕ
unfolding get
skip_of skips m = or_empty (get m skips)

unfoldable pub new : ℕ → ℕ → HashMap (List (ℕ × ℕ)) → HashMap (List ℕ) → Result ComponentSubIterator
unfolding Module.new skip_of get
new curr n metadata skips =
    if n == 0
    then ok (record {
      curr_mod = curr;
      num_mods = n;
      mod_iterator = Module.new [] [];
      metadata = metadata;
      skip_funcs = skips;
    })
    else (do
      met ← or_panic (get curr metadata)
      ok (record {
        curr_mod = curr;
        num_mods = n;
        mod_iterator = Module.new met (skip_of skips curr);
        metadata = metadata;
        skip_funcs = skips;
      }))

-- The skipped functions of the module iterator are left as they are.
unfoldable pub reset : ComponentSubIterator → Result ComponentSubIterator
unfolding reset_from_comp_iterator get
reset it = do
  met ← or_panic (get 0 it.metadata)
  ok (record it { curr_mod = 0; mod_iterator = reset_from_comp_iterator met it.mod_iterator })

-- `next_module`, after `curr_mod` is raised.
unfoldable pub enter_module : ComponentSubIterator → Result (ComponentSubIterator × Bool)
unfolding Module.new skip_of get
enter_module it =
    if ltb it.curr_mod it.num_mods
    then (do
      met ← or_panic (get it.curr_mod it.metadata)
      ok (record it { mod_iterator = Module.new met (skip_of it.skip_funcs it.curr_mod) }, true))
    else ok (it, false)

unfoldable pub next_module : ComponentSubIterator → Result (ComponentSubIterator × Bool)
unfolding enter_module
next_module it = enter_module (record it { curr_mod = suc it.curr_mod })

abbrev pub end : ComponentSubIterator → Bool
end it = it.curr_mod == it.num_mods

abbrev pub has_curr : ComponentSubIterator → Bool
has_curr it = not (end it) && Module.has_curr it.mod_iterator

-- `curr_loc`: module, function and operator, and whether it is the function's last.
unfoldable pub curr_loc : ComponentSubIterator → (ℕ × (ℕ × ℕ)) × Bool
unfolding Module.curr_loc
curr_loc it = let (loc, is_end) = Module.curr_loc it.mod_iterator in ((it.curr_mod, loc), is_end)

-- The move inside the module.
unfoldable pub next_in_module : ComponentSubIterator → ComponentSubIterator × Bool
next_in_module it =
    let (mod', moved) = Module.next it.mod_iterator in (record it { mod_iterator = mod' }, moved)

unfoldable pub next : ComponentSubIterator → Result (ComponentSubIterator × Bool)
unfolding next_in_module next_module
next it = if Module.has_next it.mod_iterator then ok (next_in_module it) else next_module it

-- Where the cursor stands, if it stands on an operator.
unfoldable pub here : ComponentSubIterator → List (ℕ × (ℕ × ℕ))
unfolding curr_loc
here it = if has_curr it then (curr_loc it).0 ∷ [] else []

-- One step of a walk: what follows counts only if the cursor moved.
unfoldable pub go_on :
    Bool
    → List (ℕ × (ℕ × ℕ))
    → Result (List (ℕ × (ℕ × ℕ)) × Bool)
    → Result (List (ℕ × (ℕ × ℕ)) × Bool)
go_on false met more = ok (met, true)
go_on true met more = more >>= λ r. ok (met ++ r.0, r.1)

-- The places met by `next` until it returns false, and whether it did within the fuel.
unfoldable pub walk : ℕ → ComponentSubIterator → Result (List (ℕ × (ℕ × ℕ)) × Bool)
unfolding here next go_on
walk zero it = ok ([], false)
walk (suc fuel) it = next it >>= λ r. go_on r.1 (here it) (walk fuel r.0)
