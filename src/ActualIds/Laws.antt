-- ===== src/ActualIds/Laws.antt =====
-- The actual IDs of a space are a renumbering of the assumed ones: consecutive in the order of the
-- assignments, different for different items, and kept by later assignments in other spaces.
use wirm.Base.{
  ℕ, zero, suc, ◌+◌, ◌<◌, ◌≡◌, ◌≢◌, ◌⊎◌, refl, sym, ap, ◌∙◌, some, List, [], ◌∷◌, get_elem?, ◌==◌,
  ==_iff, ==_refl, if◌then◌else◌, arith, Bool-cases, inl, inr, All, IsDistinct,
}
use wirm.Base.Maps.{get, get-insert}
use mathlib.Core.Option.{some-injective}
use wirm.ActualIds.{default_tracker, IdTracker, tracker_assign, lookup_actual_id}

-- The assignments of one space, in order.
abbrev pub assign_all : IdTracker → List ℕ → IdTracker
assign_all t [] = t
assign_all t (assumed_id ∷ rest) = assign_all (tracker_assign t assumed_id) rest

-- Different assumed IDs have different actual IDs, each below the counter.
pub record IsRenumbering (t : IdTracker) : Type 0 where
  below : (assumed actual : ℕ) → lookup_actual_id t assumed ≡ some actual → actual < t.current_id
  injective :
      (a b actual : ℕ)
      → lookup_actual_id t a ≡ some actual
      → lookup_actual_id t b ≡ some actual
      → a ≡ b

pub default-IsRenumbering : IsRenumbering default_tracker
unfolding lookup_actual_id get
default-IsRenumbering = record { below = λ a n h. cc; injective = λ a b n h k. cc }

-- After an assignment the item has the next ID and the others keep theirs.
lookup-assign :
    (t : IdTracker) (assumed other : ℕ)
    → lookup_actual_id (tracker_assign t assumed) other
      ≡ (if assumed == other then some t.current_id else lookup_actual_id t other)
unfolding lookup_actual_id tracker_assign
lookup-assign t assumed other = get-insert assumed other t.current_id t.actual_ids

assign-current_id :
    (t : IdTracker) (assumed : ℕ) → (tracker_assign t assumed).current_id ≡ suc t.current_id
unfolding tracker_assign
assign-current_id t assumed = refl

-- The ID just given, or an old one.
lookup-assign_cases :
    (t : IdTracker) (assumed other actual : ℕ)
    → lookup_actual_id (tracker_assign t assumed) other ≡ some actual
    → ((assumed ≡ other) × (actual ≡ t.current_id)) ⊎ (lookup_actual_id t other ≡ some actual)
lookup-assign_cases t assumed other actual h = elim (Bool-cases (assumed == other)) [
  | inl e ↦ inl (
    (==_iff assumed other).0 e,
    sym (some-injective _ _ (rw (lookup-assign t assumed other, e) at h)),
  )
  | inr f ↦ inr (rw (lookup-assign t assumed other, f) at h)
]

tracker_assign-IsRenumbering :
    (t : IdTracker) (assumed : ℕ) → IsRenumbering t → IsRenumbering (tracker_assign t assumed)
tracker_assign-IsRenumbering t assumed h =
    let counted = assign-current_id t assumed in
    record {
      below = λ a actual at. elim (lookup-assign_cases t assumed a actual at) [
        | inl new ↦ omega (arith, counted, new.1)
        | inr old ↦ omega (arith, counted, h.below a actual old)
      ];
      injective = λ a b actual at at'. elim (lookup-assign_cases t assumed a actual at) [
        | inl new ↦ elim (lookup-assign_cases t assumed b actual at') [
          | inl new' ↦ sym new.0 ∙ new'.0
          | inr old' ↦ absurd (omega (arith, new.1, h.below b actual old'))
        ]
        | inr old ↦ elim (lookup-assign_cases t assumed b actual at') [
          | inl new' ↦ absurd (omega (arith, new'.1, h.below a actual old))
          | inr old' ↦ h.injective a b actual old old'
        ]
      ];
    }

-- After any assignments to a tracker in which different assumed IDs have different actual IDs,
-- each below the counter, this still holds.
pub assign_all-IsRenumbering :
    (t : IdTracker) (xs : List ℕ) → IsRenumbering t → IsRenumbering (assign_all t xs)
assign_all-IsRenumbering t [] h = h
assign_all-IsRenumbering t (x ∷ xs) h =
    assign_all-IsRenumbering (tracker_assign t x) xs (tracker_assign-IsRenumbering t x h)

-- Assignments to other items keep the ID of an item.
assign_all-keeps :
    (t : IdTracker) (xs : List ℕ) (a : ℕ)
    → All (λ y. a ≢ y) xs
    → lookup_actual_id (assign_all t xs) a ≡ lookup_actual_id t a
assign_all-keeps t [] a h = refl
assign_all-keeps t (x ∷ xs) a h =
    assign_all-keeps (tracker_assign t x) xs a h.1 ∙ elim (Bool-cases (x == a)) [
      | inl e ↦ absurd (h.0 (sym ((==_iff x a).0 e)))
      | inr f ↦ rw (lookup-assign t x a, f) refl
    ]

-- Different items that are assigned one after the other have consecutive actual IDs in that
-- order, from the tracker's current one.
pub assign_all-lookup :
    (t : IdTracker) (xs : List ℕ) (k a : ℕ)
    → IsDistinct xs
    → get_elem? xs k ≡ some a
    → lookup_actual_id (assign_all t xs) a ≡ some (t.current_id + k)
assign_all-lookup t [] k a distinct at = cc
assign_all-lookup t (x ∷ xs) zero a distinct at =
    let e : x ≡ a = some-injective _ _ at in
    let here : lookup_actual_id (tracker_assign t x) x ≡ some t.current_id =
      rw (lookup-assign t x x, ==_refl x) refl in
    let kept = assign_all-keeps (tracker_assign t x) xs x distinct.0 ∙ here in
    let z : t.current_id ≡ t.current_id + 0 = omega arith in rw (← e, ← z) kept
assign_all-lookup t (x ∷ xs) (suc k) a distinct at =
    let ih = assign_all-lookup (tracker_assign t x) xs k a distinct.1 at in
    let e : (tracker_assign t x).current_id + k ≡ t.current_id + suc k =
      omega (arith, assign-current_id t x) in
    ih ∙ ap some e
