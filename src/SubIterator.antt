-- ===== src/SubIterator.antt =====
-- subiterator/function_subiterator.rs and subiterator/module_subiterator.rs: the cursors that walk
-- the operators of a function and of a module's local functions. A method that changes its cursor
-- and returns a Boolean gives both.
pub mod Walk
mod Tests
pub mod Modules
pub mod Steps
pub mod Component
pub mod Reset
pub mod Skips
pub mod Laws
use wirm.Base.{
  ℕ, zero, suc, ◌+◌, Bool, true, false, not, ◌||◌, Option, none, some, List, [], ◌∷◌, length,
  get_elem?, ltb, leb, ◌==◌, if◌then◌else◌,
}

-- `FuncSubIterator`
pub record FuncSubIterator : Type 0 where
  pub curr_instr : ℕ
  pub num_instr : ℕ

abbrev pub new_func : ℕ → FuncSubIterator
new_func n = record { curr_instr = 0; num_instr = n }

abbrev pub has_next_instr : FuncSubIterator → Bool
has_next_instr it = ltb (it.curr_instr + 1) it.num_instr

abbrev pub is_end : FuncSubIterator → ℕ → Bool
is_end it pc = leb it.num_instr (pc + 1)

unfoldable pub next_instr : FuncSubIterator → FuncSubIterator × Bool
next_instr it =
    if not (has_next_instr it)
    then (it, false)
    else (record it { curr_instr = it.curr_instr + 1 }, true)

-- `ModuleSubIterator`: the functions are given by their id and their number of operators.
pub record ModuleSubIterator : Type 0 where
  pub curr_idx : ℕ
  pub metadata : List (ℕ × ℕ)
  pub func_iterator : FuncSubIterator
  pub skip_funcs : List ℕ

-- `Vec::contains` on function ids.
unfoldable pub contains : List ℕ → ℕ → Bool
contains [] f = false
contains (g ∷ fs) f = f == g || contains fs f

abbrev pub or_default : Option (ℕ × ℕ) → ℕ × ℕ
or_default none = (0, 0)
or_default (some m) = m

-- `get_curr_func` at a position of the metadata.
unfoldable pub func_at : List (ℕ × ℕ) → ℕ → ℕ × ℕ
func_at meta idx = or_default (get_elem? meta idx)

abbrev pub get_curr_func : ModuleSubIterator → ℕ × ℕ
get_curr_func it = func_at it.metadata it.curr_idx

abbrev pub has_curr : ModuleSubIterator → Bool
has_curr it = ltb it.curr_idx (length it.metadata)

-- `curr_loc`: the function, the operator, and whether it is the function's last.
unfoldable pub curr_loc : ModuleSubIterator → (ℕ × ℕ) × Bool
curr_loc it = (
  ((get_curr_func it).0, it.func_iterator.curr_instr),
  is_end it.func_iterator it.func_iterator.curr_instr,
)

-- The loop of `handle_skips`. Every round moves to the next function, so there are as many rounds
-- as functions at most.
unfoldable pub skips_from : ℕ → List ℕ → List (ℕ × ℕ) → ℕ → ℕ
unfolding contains func_at
skips_from zero skip meta idx = idx
skips_from (suc fuel) skip meta idx =
    let rest = skips_from fuel skip meta (suc idx) in
    if contains skip (func_at meta idx).0
    then (if leb (length meta) (suc idx) then suc idx else rest)
    else idx

unfoldable pub handle_skips : ModuleSubIterator → ModuleSubIterator
unfolding skips_from
handle_skips it = record it {
  curr_idx = skips_from (length it.metadata) it.skip_funcs it.metadata it.curr_idx;
}

unfoldable pub new : List (ℕ × ℕ) → List ℕ → ModuleSubIterator
unfolding handle_skips
new [] skip = record { curr_idx = 0; metadata = []; func_iterator = new_func 0; skip_funcs = skip }
new ((f, n) ∷ rest) skip = handle_skips (record {
  curr_idx = 0;
  metadata = (f, n) ∷ rest;
  func_iterator = new_func n;
  skip_funcs = skip;
})

-- `reset` after `curr_idx` is set to 0.
unfoldable pub reset_functions : List (ℕ × ℕ) → ModuleSubIterator → ModuleSubIterator
unfolding handle_skips
reset_functions [] it = record it { func_iterator = new_func 0 }
reset_functions (m ∷ rest) it =
    let it' = handle_skips it in record it' { func_iterator = new_func (get_curr_func it').1 }

unfoldable pub reset : ModuleSubIterator → ModuleSubIterator
unfolding reset_functions
reset it = reset_functions it.metadata (record it { curr_idx = 0 })

unfoldable pub reset_from_comp_iterator : List (ℕ × ℕ) → ModuleSubIterator → ModuleSubIterator
unfolding reset
reset_from_comp_iterator meta it = reset (record it { metadata = meta })

abbrev pub has_next_function : ModuleSubIterator → Bool
has_next_function it = ltb (it.curr_idx + 1) (length it.metadata)

-- The end of `next_function`, after the skips.
unfoldable pub enter_function : ModuleSubIterator → ModuleSubIterator × Bool
enter_function it =
    if has_curr it
    then (record it { func_iterator = new_func (get_curr_func it).1 }, true)
    else (it, false)

unfoldable pub next_function : ModuleSubIterator → ModuleSubIterator × Bool
unfolding handle_skips enter_function
next_function it =
    if not (has_next_function it)
    then (it, false)
    else enter_function (handle_skips (record it { curr_idx = suc it.curr_idx }))

abbrev pub has_next : ModuleSubIterator → Bool
has_next it = has_next_instr it.func_iterator || has_next_function it

-- The move inside the function.
unfoldable pub next_in_function : ModuleSubIterator → ModuleSubIterator × Bool
unfolding next_instr
next_in_function it =
    let (func', moved) = next_instr it.func_iterator in (record it { func_iterator = func' }, moved)

unfoldable pub next : ModuleSubIterator → ModuleSubIterator × Bool
unfolding next_in_function next_function
next it = if has_next_instr it.func_iterator then next_in_function it else next_function it
