-- ===== src/ModuleIr/Aligned.antt =====
-- The live imported functions of a module and the live function imports of its import section, as
-- lists of import IDs, and what the changes to the two lists do to them.
use wirm.Base.{
  ℕ, zero, suc, ◌+◌, ◌≤◌, ◌≡◌, ◌≢◌, refl, sym, ap, ◌∙◌, subst, Bool, true, false, not, some, List,
  [], ◌∷◌, ◌++◌, length, get_elem?, set, keep, ◌==◌, ==_iff, ==_refl, arith, Bool-cases, inl, inr,
  All, IsDistinct,
}
use mathlib.Core.Option.{some-injective}
use wirm.ModuleIr.Imports.{Import, TypeRef, func_type, func_exact}
use wirm.ModuleIr.Funcs.{Function, FuncKind, local_kind, import_kind, LocalFunction}

abbrev pub takes_function : TypeRef → Bool
takes_function (func_type n) = true
takes_function (func_exact n) = true
takes_function _ = false

abbrev listed : Bool → Bool → ℕ → List ℕ → List ℕ
listed true false j rest = j ∷ rest
listed true true j rest = rest
listed false deleted j rest = rest

-- The indices of the live function imports, from index `j`.
abbrev pub live_imports : ℕ → List Import → List ℕ
live_imports j [] = []
live_imports j (i ∷ rest) = listed (takes_function i.ty) i.deleted j (live_imports (suc j) rest)

abbrev pub import_of : Bool → FuncKind → List ℕ → List ℕ
import_of true k rest = rest
import_of false (local_kind l) rest = rest
import_of false (import_kind i) rest = i.import_id ∷ rest

-- The import IDs of the live imported functions.
abbrev pub import_ids : List Function → List ℕ
import_ids [] = []
import_ids (f ∷ rest) = import_of f.deleted f.kind (import_ids rest)

-- A local function has no import.
pub import_ids-local :
    (d : Bool) (k : FuncKind) (l : LocalFunction) (xs : List ℕ)
    → k ≡ local_kind l
    → import_of d k xs ≡ xs
import_ids-local true k l xs h = refl
import_ids-local false k l xs h = ap (λ k'. import_of false k' xs) h

listed-append :
    (a b : Bool) (j : ℕ) (xs ys : List ℕ) → listed a b j (xs ++ ys) ≡ listed a b j xs ++ ys
listed-append true false j xs ys = refl
listed-append true true j xs ys = refl
listed-append false b j xs ys = refl

pub live_imports-append :
    (j : ℕ) (is ks : List Import)
    → live_imports j (is ++ ks) ≡ live_imports j is ++ live_imports (j + length is) ks
live_imports-append j [] ks = ap (λ n. live_imports n ks) (omega arith)
live_imports-append j (i ∷ is) ks =
    let e : suc j + length is ≡ j + suc (length is) = omega arith in
    ap (λ r. listed (takes_function i.ty) i.deleted j r)
      (live_imports-append (suc j) is ks ∙ ap (λ n. live_imports (suc j) is ++ live_imports n ks) e)
    ∙ listed-append (takes_function i.ty) i.deleted j (live_imports (suc j) is)
        (live_imports (j + suc (length is)) ks)

import_of-append :
    (d : Bool) (k : FuncKind) (xs ys : List ℕ) → import_of d k (xs ++ ys) ≡ import_of d k xs ++ ys
import_of-append true k xs ys = refl
import_of-append false (local_kind l) xs ys = refl
import_of-append false (import_kind i) xs ys = refl

pub import_ids-append :
    (fs gs : List Function) → import_ids (fs ++ gs) ≡ import_ids fs ++ import_ids gs
import_ids-append [] gs = refl
import_ids-append (f ∷ fs) gs =
    ap (import_of f.deleted f.kind) (import_ids-append fs gs)
    ∙ import_of-append f.deleted f.kind (import_ids fs) (import_ids gs)

All-listed :
    (P : ℕ → Type 0) (a b : Bool) (j : ℕ) (xs : List ℕ) → P j → All P xs → All P (listed a b j xs)
All-listed P true false j xs p h = (p, h)
All-listed P true true j xs p h = h
All-listed P false b j xs p h = h

listed-IsDistinct :
    (a b : Bool) (j : ℕ) (xs : List ℕ)
    → All (λ n. j ≢ n) xs
    → IsDistinct xs
    → IsDistinct (listed a b j xs)
listed-IsDistinct true false j xs p h = (p, h)
listed-IsDistinct true true j xs p h = h
listed-IsDistinct false b j xs p h = h

-- Every live import's index is at least the first one.
live_imports-le : (j k : ℕ) (is : List Import) → k ≤ j → All (λ n. k ≤ n) (live_imports j is)
live_imports-le j k [] h = tt
live_imports-le j k (i ∷ is) h =
    All-listed (λ n. k ≤ n) (takes_function i.ty) i.deleted j (live_imports (suc j) is) h
      (live_imports-le (suc j) k is (omega (arith, h)))

All-weaken : (P Q : ℕ → Type 0) (xs : List ℕ) → ((x : ℕ) → P x → Q x) → All P xs → All Q xs
All-weaken P Q [] f h = tt
All-weaken P Q (x ∷ xs) f h = (f x h.0, All-weaken P Q xs f h.1)

live_imports-fresh : (j : ℕ) (is : List Import) → All (λ n. j ≢ n) (live_imports (suc j) is)
live_imports-fresh j is =
    All-weaken (λ n. suc j ≤ n) (λ n. j ≢ n) (live_imports (suc j) is)
      (λ n le e. omega (arith, le, e)) (live_imports-le (suc j) (suc j) is (omega arith))

pub live_imports-IsDistinct : (j : ℕ) (is : List Import) → IsDistinct (live_imports j is)
live_imports-IsDistinct j [] = tt
live_imports-IsDistinct j (i ∷ is) =
    listed-IsDistinct (takes_function i.ty) i.deleted j (live_imports (suc j) is)
      (live_imports-fresh j is) (live_imports-IsDistinct (suc j) is)

-- The list without an ID.
abbrev pub without : ℕ → List ℕ → List ℕ
without j xs = keep (λ x. not (x == j)) xs

without_of_absent : (j : ℕ) (xs : List ℕ) → All (λ y. j ≢ y) xs → without j xs ≡ xs
without_of_absent j [] h = refl
without_of_absent j (x ∷ xs) h = elim (Bool-cases (x == j)) [
  | inl t ↦ absurd (h.0 (sym ((==_iff x j).0 t)))
  | inr f ↦ rw f (ap (λ r. x ∷ r) (without_of_absent j xs h.1))
]

without-listed_self :
    (a b : Bool) (j : ℕ) (xs : List ℕ)
    → All (λ n. j ≢ n) xs
    → listed a true j xs ≡ without j (listed a b j xs)
without-listed_self true false j xs h = rw (==_refl j) (sym (without_of_absent j xs h))
without-listed_self true true j xs h = sym (without_of_absent j xs h)
without-listed_self false b j xs h = sym (without_of_absent j xs h)

without-listed :
    (a b : Bool) (j k : ℕ) (xs : List ℕ)
    → (j == k) ≡ false
    → listed a b j (without k xs) ≡ without k (listed a b j xs)
without-listed true false j k xs h = rw h refl
without-listed true true j k xs h = refl
without-listed false b j k xs h = refl

-- Marking an import as deleted takes its index out of the live ones.
pub live_imports-delete :
    (k j : ℕ) (is : List Import) (i : Import)
    → get_elem? is j ≡ some i
    → live_imports k (set is j (record i { deleted = true })) ≡ without (k + j) (live_imports k is)
live_imports-delete k j [] i h = cc
live_imports-delete k zero (i' ∷ is) i h =
    let e : i' ≡ i = some-injective _ _ h in
    let z : k + 0 ≡ k = omega arith in
    rw (z, e)
      (without-listed_self (takes_function i.ty) i.deleted k (live_imports (suc k) is)
        (live_imports-fresh k is))
live_imports-delete k (suc j) (i' ∷ is) i h =
    let ih = live_imports-delete (suc k) j is i h in
    let e : suc k + j ≡ k + suc j = omega arith in
    let ne : (k == (k + suc j)) ≡ false = ground arith in
    ap (listed (takes_function i'.ty) i'.deleted k)
      (ih ∙ ap (λ n. without n (live_imports (suc k) is)) e)
    ∙ without-listed (takes_function i'.ty) i'.deleted k (k + suc j) (live_imports (suc k) is) ne

-- The same for the functions, where their imports are different.
abbrev pub ImportsAt : Function → ℕ → Type 0
ImportsAt f j = (xs : List ℕ) → import_of f.deleted f.kind xs ≡ j ∷ xs

All-import_of :
    (P : ℕ → Type 0) (d : Bool) (k : FuncKind) (xs : List ℕ) → All P (import_of d k xs) → All P xs
All-import_of P true k xs h = h
All-import_of P false (local_kind l) xs h = h
All-import_of P false (import_kind i) xs h = h.1

-- A function that is not the one deleted stays; its import, if it has one, is another.
import_ids-delete_step :
    (d : Bool) (k : FuncKind) (j : ℕ) (xs ys : List ℕ)
    → IsDistinct (import_of d k xs)
    → ((n : ℕ) → All (λ x. n ≢ x) xs → n ≢ j)
    → (IsDistinct xs → ys ≡ without j xs)
    → import_of d k ys ≡ without j (import_of d k xs)
import_ids-delete_step true k j xs ys h ne ih = ih h
import_ids-delete_step false (local_kind l) j xs ys h ne ih = ih h
import_ids-delete_step false (import_kind i) j xs ys h ne ih =
    elim (Bool-cases (i.import_id == j)) [
      | inl t ↦ absurd (ne i.import_id h.0 ((==_iff i.import_id j).0 t))
      | inr f ↦ rw f (ap (λ r. i.import_id ∷ r) (ih h.1))
    ]

pub member_of_import_ids :
    (P : ℕ → Type 0) (fs : List Function) (p j : ℕ) (f : Function)
    → get_elem? fs p ≡ some f
    → ImportsAt f j
    → All P (import_ids fs)
    → P j
member_of_import_ids P [] p j f h at all = cc
member_of_import_ids P (g ∷ fs) zero j f h at all =
    let e : import_ids (g ∷ fs) ≡ j ∷ import_ids fs =
      ap (λ x. import_of x.deleted x.kind (import_ids fs)) (some-injective g f h)
      ∙ at (import_ids fs) in
    (subst (All P) e all).0
member_of_import_ids P (g ∷ fs) (suc p) j f h at all =
    member_of_import_ids P fs p j f h at (All-import_of P g.deleted g.kind (import_ids fs) all)

pub import_ids-delete :
    (fs : List Function) (p j : ℕ) (f : Function)
    → get_elem? fs p ≡ some f
    → ImportsAt f j
    → IsDistinct (import_ids fs)
    → import_ids (set fs p (record f { deleted = true })) ≡ without j (import_ids fs)
import_ids-delete [] p j f h at distinct = cc
import_ids-delete (g ∷ fs) zero j f h at distinct =
    let e : import_ids (g ∷ fs) ≡ j ∷ import_ids fs =
      ap (λ x. import_of x.deleted x.kind (import_ids fs)) (some-injective g f h)
      ∙ at (import_ids fs) in
    let apart : IsDistinct (j ∷ import_ids fs) = subst IsDistinct e distinct in
    rw (e, ==_refl j) (sym (without_of_absent j (import_ids fs) apart.0))
import_ids-delete (g ∷ fs) (suc p) j f h at distinct =
    import_ids-delete_step g.deleted g.kind j (import_ids fs)
      (import_ids (set fs p (record f { deleted = true }))) distinct
      (λ n all. member_of_import_ids (λ x. n ≢ x) fs p j f h at all)
      (λ d. import_ids-delete fs p j f h at d)

pub import_ids-delete_local :
    (fs : List Function) (p : ℕ) (f : Function) (l : LocalFunction)
    → get_elem? fs p ≡ some f
    → f.kind ≡ local_kind l
    → import_ids (set fs p (record f { deleted = true })) ≡ import_ids fs
import_ids-delete_local [] p f l h kind = cc
import_ids-delete_local (g ∷ fs) zero f l h kind = sym (
    ap (λ x. import_of x.deleted x.kind (import_ids fs)) (some-injective g f h)
    ∙ import_ids-local f.deleted f.kind l (import_ids fs) kind)
import_ids-delete_local (g ∷ fs) (suc p) f l h kind =
    ap (import_of g.deleted g.kind) (import_ids-delete_local fs p f l h kind)

-- A live import's index is one of the section's.
abbrev pub IsImport : ℕ → List Import → ℕ → Type 0
IsImport k is n = (q : ℕ) × (i : Import) × (n ≡ k + q) × (get_elem? is q ≡ some i)

live_imports-shift :
    (k : ℕ) (i : Import) (is : List Import) (n : ℕ) → IsImport (suc k) is n → IsImport k (i ∷ is) n
live_imports-shift k i is n (q, i', at, found) = (suc q, i', omega (arith, at), found)

pub live_imports-IsImport : (k : ℕ) (is : List Import) → All (IsImport k is) (live_imports k is)
live_imports-IsImport k [] = tt
live_imports-IsImport k (i ∷ is) =
    All-listed (IsImport k (i ∷ is)) (takes_function i.ty) i.deleted k (live_imports (suc k) is)
      (0, i, omega arith, refl)
      (All-weaken (IsImport (suc k) is) (IsImport k (i ∷ is)) (live_imports (suc k) is)
        (live_imports-shift k i is) (live_imports-IsImport (suc k) is))
