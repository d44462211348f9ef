-- ===== src/IdxSpace/Slots.antt =====
-- The abstract view of an `IdxSpace`: for each index of each vector the list of its IDs, whatever
-- the representation of an entry and the order in which a map is met.
use wirm.Base.{
  ℕ, zero, suc, ◌+◌, ◌≡◌, ◌≢◌, refl, ap, sym, ◌∙◌, subst, Option, none, some, List, [], ◌∷◌, ◌++◌,
  arith, ==_iff, ==_refl, get_elem?, ◌==◌, if◌then◌else◌, inl, inr, Bool-cases, Option-cases, All,
  IsDistinct, map, true, false,
}
use wirm.Base.Maps.{HashMap, get, insert, get-insert}
use wirm.Space.{SpaceSubtype}
use wirm.IdxSpace.{
  AssumedIdForIdx, single, multiple, find_id, matches, append, find_in, add_id, modify_or_single,
  IdxSpace, ids_of, Place,
}
use mathlib.Core.Option.{some-injective}

abbrev pub ids : AssumedIdForIdx → List ℕ
ids (single my_id) = my_id ∷ []
ids (multiple sub_ids) = sub_ids

abbrev pub ids_at : Option AssumedIdForIdx → List ℕ
ids_at none = []
ids_at (some a) = ids a

abbrev pub slot : IdxSpace → SpaceSubtype → ℕ → List ℕ
slot s subty idx = ids_at (get idx (ids_of s subty))

-- The position in the entry that a lookup's third component stands for.
abbrev pub position : Option ℕ → ℕ
position none = 0
position (some j) = j

abbrev pub keys {ℓ} : {V : Type ℓ} → HashMap V → List ℕ
keys m = map (λ e. e.0) m

ids-append : (a : AssumedIdForIdx) (id : ℕ) → ids (append a id) ≡ ids a ++ id ∷ []
unfolding append
ids-append (single my_id) id = refl
ids-append (multiple sub_ids) id = refl

find_id_sound :
    (xs : List ℕ) (id n k : ℕ)
    → find_id xs id n ≡ some k
    → (j : ℕ) × (k ≡ n + j) × (get_elem? xs j ≡ some id)
unfolding find_id
find_id_sound [] id n k h = cc
find_id_sound (x ∷ xs) id n k h = elim (Bool-cases (x == id)) [
  | inl t ↦ (0, omega (arith, some-injective _ _ (rw t at h)), ap some ((==_iff x id).0 t))
  | inr f ↦
      let (j, e, at) = find_id_sound xs id (suc n) k (rw f at h) in (suc j, omega (arith, e), at)
]

find_id_complete :
    (xs : List ℕ) (id n j : ℕ) → get_elem? xs j ≡ some id → (k : ℕ) × (find_id xs id n ≡ some k)
unfolding find_id
find_id_complete [] id n j h = cc
find_id_complete (x ∷ xs) id n zero h =
    let same : (x == id) ≡ true = (==_iff x id).1 (some-injective _ _ h) in (n, rw same refl)
find_id_complete (x ∷ xs) id n (suc j) h =
    let (k, found) = find_id_complete xs id (suc n) j h in
    elim (Bool-cases (x == id)) [ inl t ↦ (n, rw t refl) | inr f ↦ (k, rw f found) ]

pub matches_sound :
    (a : AssumedIdForIdx) (id : ℕ) (o : Option ℕ)
    → matches a id ≡ some o
    → get_elem? (ids a) (position o) ≡ some id
unfolding matches
matches_sound (single my_id) id o h = elim (Bool-cases (my_id == id)) [
  | inl t ↦
      let e : none ≡ o = some-injective _ _ (rw t at h) in
      subst (λ q. get_elem? (my_id ∷ []) (position q) ≡ some id) e (ap some ((==_iff my_id id).0 t))
  | inr f ↦ absurd (let e : none ≡ some o = rw f at h in cc)
]
matches_sound (multiple sub_ids) id o h = elim (Option-cases (find_id sub_ids id 0)) [
  | inl missing ↦ absurd (let e : none ≡ some o = rw missing at h in cc)
  | inr (k, found) ↦
      let e : some k ≡ o = some-injective _ _ (rw found at h) in
      let (j, same, at) = find_id_sound sub_ids id 0 k found in
      let at_k : get_elem? sub_ids k ≡ some id =
        subst (λ i. get_elem? sub_ids i ≡ some id) (omega (arith, same)) at in
      subst (λ q. get_elem? sub_ids (position q) ≡ some id) e at_k
]

matches_of_find_id :
    (xs : List ℕ) (id k : ℕ) → find_id xs id 0 ≡ some k → matches (multiple xs) id ≡ some (some k)
unfolding matches
matches_of_find_id xs id k found = rw found refl

pub matches_complete :
    (a : AssumedIdForIdx) (id j : ℕ)
    → get_elem? (ids a) j ≡ some id
    → (o : Option ℕ) × (matches a id ≡ some o)
unfolding matches
matches_complete (single my_id) id zero h =
    let same : (my_id == id) ≡ true = (==_iff my_id id).1 (some-injective _ _ h) in
    (none, rw same refl)
matches_complete (single my_id) id (suc j) h = cc
matches_complete (multiple sub_ids) id j h =
    let (k, found) = find_id_complete sub_ids id 0 j h in
    (some k, matches_of_find_id sub_ids id k found)

get_of_fresh : (k : ℕ) (m : HashMap AssumedIdForIdx) → All (λ j. k ≢ j) (keys m) → get k m ≡ none
unfolding get
get_of_fresh k [] h = refl
get_of_fresh k ((j, a) ∷ m) h = elim (Bool-cases (j == k)) [
  | inl t ↦ absurd (h.0 (sym ((==_iff j k).0 t)))
  | inr f ↦ rw f (get_of_fresh k m h.1)
]

pub find_in_sound :
    (subty : SpaceSubtype) (m : HashMap AssumedIdForIdx) (id : ℕ) (p : Place)
    → IsDistinct (keys m)
    → find_in subty m id ≡ some p
    → (p.0 ≡ subty) × (get_elem? (ids_at (get p.1.0 m)) (position p.1.1) ≡ some id)
unfolding find_in get
find_in_sound subty [] id p distinct h = cc
find_in_sound subty ((idx, a) ∷ m) id p distinct h = elim (Option-cases (matches a id)) [
  | inl missing ↦
      let (vector, at) = find_in_sound subty m id p distinct.1 (rw missing at h) in
      (
        vector,
        elim (Bool-cases (idx == p.1.0)) [
          | inr f ↦ rw f at
          | inl t ↦
              let gone : get p.1.0 m ≡ none =
                subst (λ i. get i m ≡ none) ((==_iff idx p.1.0).0 t)
                  (get_of_fresh idx m distinct.0) in
              absurd (let e : none ≡ some id = rw gone at at in cc)
        ],
      )
  | inr (o, found) ↦
      let e : (subty, (idx, o)) ≡ p = some-injective _ _ (rw found at h) in
      subst
        (λ q.
          (q.0 ≡ subty)
          × (get_elem? (ids_at (get q.1.0 ((idx, a) ∷ m))) (position q.1.1) ≡ some id))
        e (refl, rw (==_refl idx) (matches_sound a id o found))
]

pub find_in_complete :
    (subty : SpaceSubtype) (m : HashMap AssumedIdForIdx) (id idx j : ℕ)
    → get_elem? (ids_at (get idx m)) j ≡ some id
    → (p : Place) × (find_in subty m id ≡ some p)
unfolding find_in get
find_in_complete subty [] id idx j h = cc
find_in_complete subty ((i, a) ∷ m) id idx j h = elim (Option-cases (matches a id)) [
  | inr (o, found) ↦ ((subty, (i, o)), rw found refl)
  | inl missing ↦ elim (Bool-cases (i == idx)) [
    | inr f ↦
        let (p, found) = find_in_complete subty m id idx j (rw f at h) in (p, rw missing found)
    | inl t ↦
        let here : get_elem? (ids a) j ≡ some id = rw t at h in
        let (o, found) = matches_complete a id j here in
        absurd (let e : none ≡ some o = sym missing ∙ found in cc)
  ]
]

ids-modify_or_single :
    (id : ℕ) (o : Option AssumedIdForIdx) → ids (modify_or_single id o) ≡ ids_at o ++ id ∷ []
ids-modify_or_single id none = refl
ids-modify_or_single id (some entry) = ids-append entry id

-- A new ID goes to the end of its slot, and to no other.
pub slot-add_id :
    (m : HashMap AssumedIdForIdx) (vec_idx id idx : ℕ)
    → ids_at (get idx (add_id m vec_idx id))
      ≡ (if vec_idx == idx then ids_at (get idx m) ++ id ∷ [] else ids_at (get idx m))
unfolding add_id
slot-add_id m vec_idx id idx = elim (Bool-cases (vec_idx == idx)) [
  | inl t ↦
      let same = (==_iff vec_idx idx).0 t in
      rw (t, get-insert vec_idx idx (modify_or_single id (get vec_idx m)) m, t, ← same)
        (ids-modify_or_single id (get vec_idx m))
  | inr f ↦ rw (f, get-insert vec_idx idx (modify_or_single id (get vec_idx m)) m, f) refl
]

-- A map keeps its keys apart.
All-keys-insert :
    (P : ℕ → Type 0) (k : ℕ) (v : AssumedIdForIdx) (m : HashMap AssumedIdForIdx)
    → P k
    → All P (keys m)
    → All P (keys (insert k v m))
unfolding insert
All-keys-insert P k v [] p h = (p, tt)
All-keys-insert P k v ((j, w) ∷ m) p h = elim (Bool-cases (j == k)) [
  | inl t ↦ rw t (p, h.1)
  | inr f ↦ rw f (h.0, All-keys-insert P k v m p h.1)
]

insert-IsDistinct :
    (k : ℕ) (v : AssumedIdForIdx) (m : HashMap AssumedIdForIdx)
    → IsDistinct (keys m)
    → IsDistinct (keys (insert k v m))
unfolding insert
insert-IsDistinct k v [] h = (tt, tt)
insert-IsDistinct k v ((j, w) ∷ m) h = elim (Bool-cases (j == k)) [
  | inl t ↦ rw t (subst (λ i. All (λ y. i ≢ y) (keys m)) ((==_iff j k).0 t) h.0, h.1)
  | inr f ↦ rw f (
    All-keys-insert (λ y. j ≢ y) k v m
        (λ e. let c : true ≡ false = sym ((==_iff j k).1 e) ∙ f in cc) h.0,
    insert-IsDistinct k v m h.1,
  )
]

pub add_id-IsDistinct :
    (m : HashMap AssumedIdForIdx) (vec_idx id : ℕ)
    → IsDistinct (keys m)
    → IsDistinct (keys (add_id m vec_idx id))
unfolding add_id
add_id-IsDistinct m vec_idx id h =
    insert-IsDistinct vec_idx (modify_or_single id (get vec_idx m)) m h
