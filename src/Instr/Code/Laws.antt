-- ===== src/Instr/Code/Laws.antt =====
-- The flags stay in step with the operators.
use wirm.Base.{
  ℕ, ◌≡◌, refl, ◌≢◌, Bool, true, Option, none, some, List, [], ◌∷◌, ◌++◌, arith, length,
  length-append, length-set, length-replicate, get_elem?, get_elem?-set_self, get_elem?-set_ne, set,
  ◌∙◌, sym, subst, get_elem?-lt,
}
use wirm.Base.Results.{Result, ok, or_panic, >>=-eq-ok}
use wirm.Reindex.{Operator}
use wirm.Instr.{
  Flag, Mode, default_flag, InjectedInstrs, add_instr as flag_add_instr,
  clear_instr as flag_clear_instr, finish_instr as flag_finish_instr,
  append_to_tag as flag_append_to_tag,
}
use wirm.Instr.Flags.{add_instr-Added, Added, applies, is_special}
use wirm.Instr.Code.{
  Instructions, flags_of, flags_for, push_flag, force_flags, if_flags, push, new, at_flag,
  add_instr, set_current_mode, finish_instr, set_alternate, set_block_alt, append_to_tag,
  clear_instr,
}

-- One flag for each operator.
abbrev pub IsAligned : Instructions → Type 0
IsAligned i = length (flags_of i) ≡ length i.instructions

flags_for-push :
    (ops : List Operator) (op : Operator) (fs : Option (List Flag))
    → length (flags_for ops fs) ≡ length ops
    → length (flags_for (ops ++ op ∷ []) (push_flag fs)) ≡ length (ops ++ op ∷ [])
flags_for-push ops op none h = length-replicate (length (ops ++ op ∷ [])) default_flag
flags_for-push ops op (some fs) h =
    omega (arith, length-append fs (default_flag ∷ []), length-append ops (op ∷ []))

push-IsAligned : (i : Instructions) (op : Operator) → IsAligned i → IsAligned (push i op)
unfolding push
push-IsAligned i op h = flags_for-push i.instructions op i.flags h

at_flag-lem :
    (i : Instructions) (index : ℕ) (change : Flag → Result Flag) (i' : Instructions)
    → at_flag i index change ≡ ok i'
    → (flag' : Flag) × (i' ≡ record i { flags = some (set (flags_of i) index flag') })
unfolding at_flag force_flags
at_flag-lem i index change i' e =
    let (flag, _, e') = >>=-eq-ok (or_panic (get_elem? (flags_of i) index)) _ e in
    let (flag', _, last) = >>=-eq-ok (change flag) _ e' in (flag', cc)

at_flag-IsAligned :
    (i : Instructions) (index : ℕ) (change : Flag → Result Flag) (i' : Instructions)
    → at_flag i index change ≡ ok i'
    → IsAligned i
    → IsAligned i' × (i'.instructions ≡ i.instructions)
at_flag-IsAligned i index change i' e h =
    let (flag', is) = at_flag-lem i index change i' e in
    rw is (length-set (flags_of i) index flag' ∙ h, refl)

-- In a body with a flag for each operator, `add_instr` at an operator of the body, in a mode
-- that is set there and applies to it, succeeds, puts the new operator into that operator's
-- flag, and changes no other flag and no operator.
pub add_instr-adds :
    (i : Instructions) (index : ℕ) (flag : Flag) (at_op op : Operator) (m : Mode)
    → IsAligned i
    → get_elem? i.instructions index ≡ some at_op
    → get_elem? (flags_of i) index ≡ some flag
    → flag.current_mode ≡ some m
    → applies m at_op ≡ true
    → (i' : Instructions) × (flag' : Flag) × (add_instr i index op ≡ ok (i', is_special m))
      × Added m flag flag' op
      × (get_elem? (flags_of i') index ≡ some flag')
      × ((k : ℕ) → k ≢ index → get_elem? (flags_of i') k ≡ get_elem? (flags_of i) k)
      × (i'.instructions ≡ i.instructions)
      × IsAligned i'
unfolding add_instr force_flags
add_instr-adds i index flag at_op op m al there has mode fits =
    let (flag', done, added) = add_instr-Added flag m at_op op mode fits in
    (
      record i { flags = some (set (flags_of i) index flag') },
      flag',
      rw has (rw there (rw done)),
      added,
      get_elem?-set_self (flags_of i) index flag' (get_elem?-lt (flags_of i) index has),
      (λ k h. get_elem?-set_ne (flags_of i) flag' (λ e. h (sym e))),
      refl,
      length-set (flags_of i) index flag' ∙ al,
    )

-- Any successful edit of a body.
pub data Edit (i : Instructions) : Instructions → Type 0 where
  pushed : (op : Operator) → Edit i (push i op)
  forced : Edit i (force_flags i)
  added :
      (index : ℕ) (op : Operator) {i' : Instructions} {s : Bool}
      → add_instr i index op ≡ ok (i', s)
      → Edit i i'
  mode_set :
      (index : ℕ) (m : Mode) {i' : Instructions} → set_current_mode i index m ≡ ok i' → Edit i i'
  finished : (index : ℕ) {i' : Instructions} → finish_instr i index ≡ ok i' → Edit i i'
  alternate_set :
      (index : ℕ) (a : InjectedInstrs) {i' : Instructions}
      → set_alternate i index a ≡ ok i'
      → Edit i i'
  block_alt_set :
      (index : ℕ) (a : InjectedInstrs) {i' : Instructions}
      → set_block_alt i index a ≡ ok i'
      → Edit i i'
  tagged :
      (index : ℕ) (bytes : List ℕ) {i' : Instructions}
      → append_to_tag i index bytes ≡ ok i'
      → Edit i i'
  cleared : (index : ℕ) (m : Mode) {i' : Instructions} → clear_instr i index m ≡ ok i' → Edit i i'

pub data Edits (i : Instructions) : Instructions → Type 0 where
  here : Edits i i
  then_edit : {j k : Instructions} → Edits i j → Edit j k → Edits i k

add_instr-IsAligned :
    (i : Instructions) (index : ℕ) (op : Operator) (i' : Instructions) (s : Bool)
    → add_instr i index op ≡ ok (i', s)
    → IsAligned i
    → IsAligned i'
unfolding add_instr force_flags
add_instr-IsAligned i index op i' s e h =
    let (flag, _, e') = >>=-eq-ok (or_panic (get_elem? (flags_of i) index)) _ e in
    let (at_op, _, e'') = >>=-eq-ok (or_panic (get_elem? i.instructions index)) _ e' in
    let (r, _, last) = >>=-eq-ok (flag_add_instr flag at_op op) _ e'' in
    let is : record i { flags = some (set (flags_of i) index r.0) } ≡ i' = cc in
    subst IsAligned is (length-set (flags_of i) index r.0 ∙ h)

clear_instr-IsAligned :
    (i : Instructions) (index : ℕ) (m : Mode) (i' : Instructions)
    → clear_instr i index m ≡ ok i'
    → IsAligned i
    → IsAligned i'
unfolding clear_instr
clear_instr-IsAligned i index m i' e h = either i.flags e
  where
    either :
        (fs : Option (List Flag))
        → if_flags fs (at_flag i index (λ f. ok (flag_clear_instr f m))) (ok i) ≡ ok i'
        → IsAligned i'
    either none e = let is : i ≡ i' = cc in subst IsAligned is h
    either (some fs) e = (at_flag-IsAligned i index (λ f. ok (flag_clear_instr f m)) i' e h).0

Edit-IsAligned : {i i' : Instructions} → Edit i i' → IsAligned i → IsAligned i'
unfolding force_flags set_current_mode finish_instr set_alternate set_block_alt append_to_tag
Edit-IsAligned {i} (pushed op) h = push-IsAligned i op h
Edit-IsAligned {i} forced h = h
Edit-IsAligned {i} {i'} (added index op {s = s} e) h = add_instr-IsAligned i index op i' s e h
Edit-IsAligned {i} {i'} (mode_set index m e) h =
    (at_flag-IsAligned i index (λ f. ok (record f { current_mode = some m })) i' e h).0
Edit-IsAligned {i} {i'} (finished index e) h =
    (at_flag-IsAligned i index (λ f. ok (flag_finish_instr f)) i' e h).0
Edit-IsAligned {i} {i'} (alternate_set index a e) h =
    (at_flag-IsAligned i index (λ f. ok (record f { at_alternate = some a })) i' e h).0
Edit-IsAligned {i} {i'} (block_alt_set index a e) h =
    (at_flag-IsAligned i index (λ f. ok (record f { at_block_alt = some a })) i' e h).0
Edit-IsAligned {i} {i'} (tagged index bytes e) h =
    (at_flag-IsAligned i index (λ f. flag_append_to_tag f bytes) i' e h).0
Edit-IsAligned {i} {i'} (cleared index m e) h = clear_instr-IsAligned i index m i' e h

-- After any sequence of successful edits of a new body, it has one flag for each operator.
pub Edits-IsAligned :
    (ops : List (Operator × ℕ)) (start : ℕ) (save : Bool) (i : Instructions)
    → Edits (new ops start save) i
    → IsAligned i
unfolding new
Edits-IsAligned ops start save i here = length-replicate _ default_flag
Edits-IsAligned ops start save i (then_edit es e) =
    Edit-IsAligned e (Edits-IsAligned ops start save _ es)
