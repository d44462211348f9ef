-- ===== src/SubIterator/Skips.antt =====
-- `handle_skips` of subiterator/module_subiterator.rs: where its loop stops.
use wirm.Base.{
  ℕ, zero, suc, ◌≡◌, ◌≤◌, ◌<◌, refl, sym, ◌∙◌, true, false, List, [], ◌∷◌, ◌++◌, arith, length,
  get_elem?-append_self, length-append, Bool-cases, inl, inr, leb,
}
use mathlib.Core.List.{append_assoc, append-nil}
use wirm.SubIterator.{contains, func_at, skips_from}
use wirm.SubIterator.Walk.{all_places, drop_skipped}

pub func_at-append :
    (pre : List (ℕ × ℕ)) (m : ℕ × ℕ) (rest : List (ℕ × ℕ))
    → func_at (pre ++ m ∷ rest) (length pre) ≡ m
unfolding func_at
func_at-append pre m rest = rw (get_elem?-append_self pre m rest)

pub all_places-drop_skipped :
    (skip : List ℕ) (meta : List (ℕ × ℕ))
    → all_places skip (drop_skipped skip meta) ≡ all_places skip meta
unfolding all_places drop_skipped
all_places-drop_skipped skip [] = refl
all_places-drop_skipped skip ((f, n) ∷ rest) = elim (Bool-cases (contains skip f)) [
  | inl t ↦ rw t (all_places-drop_skipped skip rest)
  | inr u ↦ rw (u, u)
]

module _ (fuel : ℕ) (skip : List ℕ) (meta : List (ℕ × ℕ)) (idx : ℕ) where
  pub skips_stop :
      contains skip (func_at meta idx).0 ≡ false → skips_from (suc fuel) skip meta idx ≡ idx
  unfolding skips_from
  skips_stop e = rw e

  pub skips_end :
      contains skip (func_at meta idx).0 ≡ true
      → length meta ≤ suc idx
      → skips_from (suc fuel) skip meta idx ≡ suc idx
  unfolding skips_from
  skips_end e h = let last : leb (length meta) (suc idx) ≡ true = ground arith in rw (e, last)

  pub skips_pass :
      contains skip (func_at meta idx).0 ≡ true
      → suc idx < length meta
      → skips_from (suc fuel) skip meta idx ≡ skips_from fuel skip meta (suc idx)
  unfolding skips_from
  skips_pass e h = let more : leb (length meta) (suc idx) ≡ false = ground arith in rw (e, more)

length-snoc : (pre : List (ℕ × ℕ)) (m : ℕ × ℕ) → length (pre ++ m ∷ []) ≡ suc (length pre)
length-snoc pre m = omega (arith, length-append pre (m ∷ []))

-- Where the loop of `handle_skips` stops: the metadata is parted in what was passed and the rest
-- without its leading skipped functions.
pub skips_from_lem :
    (fuel : ℕ) (skip : List ℕ) (pre : List (ℕ × ℕ)) (m : ℕ × ℕ) (rest : List (ℕ × ℕ))
    → length rest < fuel
    → (passed : List (ℕ × ℕ)) × (pre ++ m ∷ rest ≡ passed ++ drop_skipped skip (m ∷ rest))
      × (skips_from fuel skip (pre ++ m ∷ rest) (length pre) ≡ length passed)
unfolding drop_skipped
skips_from_lem zero skip pre m rest h = absurd (omega arith)
skips_from_lem (suc fuel) skip pre (f, n) [] h =
    let at : func_at (pre ++ (f, n) ∷ []) (length pre) ≡ (f, n) = func_at-append pre (f, n) [] in
    elim (Bool-cases (contains skip f)) [
      | inl t ↦ (
        pre ++ (f, n) ∷ [],
        rw t (sym (append-nil (pre ++ (f, n) ∷ []))),
        skips_end fuel skip (pre ++ (f, n) ∷ []) (length pre) (rw at t)
              (omega (arith, length-snoc pre (f, n)))
            ∙ sym (length-snoc pre (f, n)),
      )
      | inr u ↦ (pre, rw u refl, skips_stop fuel skip _ (length pre) (rw at u))
    ]
skips_from_lem (suc fuel) skip pre (f, n) (m ∷ rest) h =
    let meta = pre ++ (f, n) ∷ m ∷ rest in
    let at : func_at meta (length pre) ≡ (f, n) = func_at-append pre (f, n) (m ∷ rest) in
    elim (Bool-cases (contains skip f)) [
      | inl t ↦
          let (passed, e, stop) =
            skips_from_lem fuel skip (pre ++ (f, n) ∷ []) m rest (omega arith) in
          let same : (pre ++ (f, n) ∷ []) ++ m ∷ rest ≡ meta =
            append_assoc pre ((f, n) ∷ []) (m ∷ rest) in
          let more : suc (length pre) < length meta =
            omega (arith, length-append pre ((f, n) ∷ m ∷ rest)) in
          (
            passed,
            rw t (sym same ∙ e),
            skips_pass fuel skip meta (length pre) (rw at t) more
                ∙ (rw (same, length-snoc pre (f, n)) at stop),
          )
      | inr u ↦ (pre, rw u refl, skips_stop fuel skip meta (length pre) (rw at u))
    ]

-- The same from the function after the current one, with the fuel of `handle_skips`.
pub skips_over :
    (skip : List ℕ) (pre : List (ℕ × ℕ)) (fn m : ℕ × ℕ) (rest : List (ℕ × ℕ))
    → (passed : List (ℕ × ℕ)) × (pre ++ fn ∷ m ∷ rest ≡ passed ++ drop_skipped skip (m ∷ rest))
      × (skips_from (length (pre ++ fn ∷ m ∷ rest)) skip (pre ++ fn ∷ m ∷ rest) (suc (length pre))
          ≡ length passed)
skips_over skip pre fn m rest =
    let meta = pre ++ fn ∷ m ∷ rest in
    let (passed, e, stop) =
      skips_from_lem (length meta) skip (pre ++ fn ∷ []) m rest
        (omega (arith, length-append pre (fn ∷ m ∷ rest))) in
    let same : (pre ++ fn ∷ []) ++ m ∷ rest ≡ meta = append_assoc pre (fn ∷ []) (m ∷ rest) in
    (passed, sym same ∙ e, (rw (same, length-snoc pre fn) at stop))
