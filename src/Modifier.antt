-- ===== src/Modifier.antt =====
-- `FuncInstrFlag` of ir/types.rs, the instrumentation of a whole function, and `FunctionModifier` of
-- ir/function.rs, which puts operators around the operators of a function. The locations that are
-- given to it are of a module, so they are the position of an operator.

pub mod Laws
pub mod Effects
use wirm.Base.{ℕ, ◌-◌, Bool, true, not, ◌||◌, Option, none, some, List, [], ◌∷◌, length, get_elem?}
use wirm.Base.Results.{Result, ok, panic, or_panic, ◌>>=◌}
use wirm.Reindex.{Operator}
use wirm.Instr.{Mode, before, after, alternate, InjectedInstrs, no_instrs, is_empty, push_to}
use wirm.Instr.Code.{Instructions, set_current_mode, add_instr, clear_instr, set_alternate}
use wirm.Body.{Body, DataType, add_local}

-- `FuncInstrMode`
pub data FuncMode : Type 0 where
  entry_mode exit_mode : FuncMode

-- `FuncInstrFlag`
pub record FuncFlag : Type 0 where
  pub has_special_instr : Bool
  pub entry : InjectedInstrs
  pub exit : InjectedInstrs
  pub current_mode : Option FuncMode

unfoldable pub func_has_instr : FuncFlag → Bool
func_has_instr f = not (is_empty f.entry.instrs) || not (is_empty f.exit.instrs)

unfoldable pub func_add_instr : FuncFlag → Operator → Result FuncFlag
func_add_instr f val = elim f.current_mode [
  | none ↦ panic
  | some m ↦ elim m [
    | entry_mode ↦ ok (record f { has_special_instr = true; entry = push_to f.entry val })
    | exit_mode ↦ ok (record f { has_special_instr = true; exit = push_to f.exit val })
  ]
]

unfoldable pub func_get_instr : FuncFlag → ℕ → Result Operator
func_get_instr f idx = elim f.current_mode [
  | none ↦ panic
  | some m ↦ elim m [
    | entry_mode ↦ or_panic (get_elem? f.entry.instrs idx)
    | exit_mode ↦ or_panic (get_elem? f.exit.instrs idx)
  ]
]

unfoldable pub func_instr_len : FuncFlag → Result ℕ
func_instr_len f = elim f.current_mode [
  | none ↦ panic
  | some m ↦ elim m [
    | entry_mode ↦ ok (length f.entry.instrs)
    | exit_mode ↦ ok (length f.exit.instrs)
  ]
]

unfoldable pub func_finish_instr : FuncFlag → FuncFlag
func_finish_instr f = record f { current_mode = none }

-- `FunctionModifier`
pub record Modifier : Type 0 where
  pub instr_flag : FuncFlag
  pub body : Body
  pub args : List ℕ
  pub instr_idx : Option ℕ

-- The instructions of the body changed.
abbrev pub with_code : Modifier → Result Instructions → Result Modifier
with_code b r = do code ← r; ok (record b { body = record b.body { instructions = code } })

unfoldable pub set_instrument_mode_at : Modifier → Mode → ℕ → Result Modifier
unfolding set_current_mode
set_instrument_mode_at b mode idx =
    with_code (record b { instr_idx = some idx }) (set_current_mode b.body.instructions idx mode)

abbrev pub before_at : Modifier → ℕ → Result Modifier
before_at b idx = set_instrument_mode_at b before idx

abbrev pub after_at : Modifier → ℕ → Result Modifier
after_at b idx = set_instrument_mode_at b after idx

abbrev pub alternate_at : Modifier → ℕ → Result Modifier
alternate_at b idx = set_instrument_mode_at b alternate idx

-- `body.instructions.len() - 1` of an empty body is no position, and using it is a panic.
unfoldable pub init : FuncFlag → Body → List ℕ → Result Modifier
unfolding set_instrument_mode_at
init flag body args =
    before_at (record { instr_flag = flag; body = body; args = args; instr_idx = none })
      (length body.instructions.instructions - 1)

-- At the operator last chosen.
unfoldable pub inject_here : Option ℕ → Modifier → Operator → Result Modifier
unfolding add_instr
inject_here none b instr = panic
inject_here (some idx) b instr = do
  (code, is_special) ← add_instr b.body.instructions idx instr
  ok (record b {
    body = record b.body { instructions = code };
    instr_flag = record b.instr_flag {
      has_special_instr = b.instr_flag.has_special_instr || is_special;
    };
  })

-- An operator goes to the function's own lists while a mode is set there.
unfoldable pub inject_by : Option FuncMode → Modifier → Operator → Result Modifier
unfolding func_add_instr inject_here
inject_by (some m) b instr = do
  flag ← func_add_instr b.instr_flag instr
  ok (record b { instr_flag = flag })
inject_by none b instr = inject_here b.instr_idx b instr

unfoldable pub inject : Modifier → Operator → Result Modifier
unfolding inject_by
inject b instr = inject_by b.instr_flag.current_mode b instr

unfoldable pub inject_all : Modifier → List Operator → Result Modifier
unfolding inject
inject_all b [] = ok b
inject_all b (instr ∷ instrs) = do b' ← inject b instr; inject_all b' instrs

unfoldable pub clear_instr_at : Modifier → ℕ → Mode → Result Modifier
unfolding clear_instr
clear_instr_at b idx mode = with_code b (clear_instr b.body.instructions idx mode)

unfoldable pub empty_alternate_at : Modifier → ℕ → Result Modifier
unfolding set_alternate
empty_alternate_at b idx = with_code b (set_alternate b.body.instructions idx no_instrs)

unfoldable pub modifier_add_local : Modifier → DataType → ℕ × Modifier
unfolding add_local
modifier_add_local b ty =
    let (id, num_locals, locals) = add_local ty (length b.args) b.body.num_locals b.body.locals in
    (id, record b { body = record b.body { num_locals = num_locals; locals = locals } })
