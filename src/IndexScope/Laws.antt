-- ===== src/IndexScope/Laws.antt =====
-- An `IndexScope` keeps its spaces apart and each of them valid, and finds again every item that
-- was given an ID through it.
use wirm.Base.{
  ℕ, ◌≡◌, ◌≢◌, ◌⊎◌, refl, ap, sym, ◌∙◌, Option, none, some, arith, ==_iff, ◌==◌, if◌then◌else◌, inl,
  inr, Bool-cases, true, false,
}
use wirm.Space.{Space, ComponentSection}
use wirm.IdxSpace.{IdxSpace, default_space, assign_assumed_id}
use wirm.IdxSpace.Laws.{IsValid}
use wirm.IndexScope.{IndexScope, get_space, with_space, assign}

abbrev pub tag : Space → ℕ
tag Space.comp = 0
tag Space.comp_func = 1
tag Space.comp_val = 2
tag Space.comp_type = 3
tag Space.comp_inst = 4
tag Space.core_inst = 5
tag Space.core_module = 6
tag Space.core_type = 7
tag Space.core_func = 8
tag Space.core_memory = 9
tag Space.core_table = 10
tag Space.core_global = 11
tag Space.core_tag = 12
tag Space.na = 13

-- A write to one space is seen there and nowhere else.
get_space-with_space :
    (s : IndexScope) (space other : Space) (x : IdxSpace)
    → space ≢ Space.na
    → get_space (with_space s space x) other
      ≡ (if tag space == tag other then some x else get_space s other)
unfolding get_space with_space
get_space-with_space s Space.na other x h = absurd (h refl)
get_space-with_space s Space.comp Space.comp x h = refl
get_space-with_space s Space.comp_func Space.comp_func x h = refl
get_space-with_space s Space.comp_val Space.comp_val x h = refl
get_space-with_space s Space.comp_type Space.comp_type x h = refl
get_space-with_space s Space.comp_inst Space.comp_inst x h = refl
get_space-with_space s Space.core_inst Space.core_inst x h = refl
get_space-with_space s Space.core_module Space.core_module x h = refl
get_space-with_space s Space.core_type Space.core_type x h = refl
get_space-with_space s Space.core_func Space.core_func x h = refl
get_space-with_space s Space.core_memory Space.core_memory x h = refl
get_space-with_space s Space.core_table Space.core_table x h = refl
get_space-with_space s Space.core_global Space.core_global x h = refl
get_space-with_space s Space.core_tag Space.core_tag x h = refl
get_space-with_space s _ _ x h = refl

pub get_space-some :
    (s : IndexScope) (space : Space)
    → space ≢ Space.na
    → (x : IdxSpace) × (get_space s space ≡ some x)
unfolding get_space
get_space-some s Space.na h = absurd (h refl)
get_space-some s Space.comp h = (s.comp, refl)
get_space-some s Space.comp_func h = (s.comp_func, refl)
get_space-some s Space.comp_val h = (s.comp_val, refl)
get_space-some s Space.comp_type h = (s.comp_type, refl)
get_space-some s Space.comp_inst h = (s.comp_inst, refl)
get_space-some s Space.core_inst h = (s.core_inst, refl)
get_space-some s Space.core_module h = (s.core_module, refl)
get_space-some s Space.core_type h = (s.core_type, refl)
get_space-some s Space.core_func h = (s.core_func, refl)
get_space-some s Space.core_memory h = (s.core_memory, refl)
get_space-some s Space.core_table h = (s.core_table, refl)
get_space-some s Space.core_global h = (s.core_global, refl)
get_space-some s Space.core_tag h = (s.core_tag, refl)

pub tag-injective : (a b : Space) → tag a ≡ tag b → a ≡ b
tag-injective Space.comp Space.comp h = refl
tag-injective Space.comp_func Space.comp_func h = refl
tag-injective Space.comp_val Space.comp_val h = refl
tag-injective Space.comp_type Space.comp_type h = refl
tag-injective Space.comp_inst Space.comp_inst h = refl
tag-injective Space.core_inst Space.core_inst h = refl
tag-injective Space.core_module Space.core_module h = refl
tag-injective Space.core_type Space.core_type h = refl
tag-injective Space.core_func Space.core_func h = refl
tag-injective Space.core_memory Space.core_memory h = refl
tag-injective Space.core_table Space.core_table h = refl
tag-injective Space.core_global Space.core_global h = refl
tag-injective Space.core_tag Space.core_tag h = refl
tag-injective Space.na Space.na h = refl
tag-injective _ _ h = absurd (omega (arith, h))

pub Space-cases : (a : Space) → (a ≡ Space.na) ⊎ (a ≢ Space.na)
Space-cases a = elim (Bool-cases (tag a == 13)) [
  | inl t ↦ inl (tag-injective a Space.na ((==_iff (tag a) 13).0 t))
  | inr f ↦ inr (λ e. let c : true ≡ false = sym (ap (λ b. tag b == 13) e) ∙ f in cc)
]

abbrev the_space : Option IdxSpace → IdxSpace
the_space none = default_space
the_space (some x) = x

-- The index space of a scope, an empty one for `NA`.
abbrev pub space_at : IndexScope → Space → IdxSpace
space_at s space = the_space (get_space s space)

abbrev pub IsValidScope : IndexScope → Type 0
IsValidScope s = (space : Space) → IsValid (space_at s space)

pub assign_na :
    (s : IndexScope) (section : ComponentSection) (i : ℕ) → (assign s Space.na section i).1 ≡ s
unfolding assign get_space
assign_na s section i = refl

pub assign-space_at :
    (s : IndexScope) (space other : Space) (section : ComponentSection) (i : ℕ)
    → space ≢ Space.na
    → space_at (assign s space section i).1 other ≡ (
        if tag space == tag other
        then (assign_assumed_id (space_at s space) section i).1
        else space_at s other)
unfolding assign
assign-space_at s space other section i h =
    let (x, found) = get_space-some s space h in
    let e = get_space-with_space s space other (assign_assumed_id x section i).1 h in
    elim (Bool-cases (tag space == tag other)) [
      | inl t ↦ rw (t, found, e, t) refl
      | inr f ↦ rw (f, found, e, f) refl
    ]
