-- ===== src/Config/SortServices/Measure.antt =====
-- How many services a visit can still mark: the bound of its depth.
use docke_compose_customize.Prelude.{
  ℕ, ◌≤◌, ◌<◌, String, ◌≡◌, true, false, not, List, [], ◌∷◌, arith, ◌==◌, string_eq, elem, remove,
  filter, length, Bool-cases, inl, inr, eq_refl,
}
use docke_compose_customize.Config.SortServices.{ServiceDict, dict_eq}

-- The unmarked services whose names are not in `names`.
pub free : List String → List ServiceDict → ℕ
free names services = length (filter (λ s. not (elem s.name names)) services)

pub free-le-length : (names : List String) (l : List ServiceDict) → free names l ≤ length l
unfolding free
free-le-length names [] = omega arith
free-le-length names (x ∷ l) = ground (arith, free-le-length names l)

pub free-remove :
    (names : List String) (n : ServiceDict) (l : List ServiceDict)
    → free names (remove n l) ≤ free names l
unfolding free
free-remove names n [] = omega arith
free-remove names n (x ∷ l) = ground (arith, free-remove names n l)

free-cons-le :
    (name : String) (names : List String) (l : List ServiceDict)
    → free (name ∷ names) l ≤ free names l
unfolding free
free-cons-le name names [] = omega arith
free-cons-le name names (x ∷ l) = ground (arith, free-cons-le name names l)

-- Marking an unmarked service leaves fewer of them.
pub free-cons-lt :
    (n : ServiceDict) (names : List String) (l : List ServiceDict)
    → elem n l ≡ true
    → elem n.name names ≡ false
    → free (n.name ∷ names) l < free names l
unfolding free
free-cons-lt n names [] h k = absurd (ground arith)
free-cons-lt n names (x ∷ l) h k = elim (Bool-cases (x == n)) [
  | inl same ↦
      rw ((dict_eq.beq_iff x n).0 same)
        (ground (arith, eq_refl n.name, free-cons-le n.name names l))
  | inr other ↦ ground (arith, free-cons-lt n names l, free-cons-le n.name names l)
]
