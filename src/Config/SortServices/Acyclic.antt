-- ===== src/Config/SortServices/Acyclic.antt =====
-- Without a dependency cycle no DependencyError is raised. A ranking of the names, by which every
-- service ranks below those that depend on it, says that there is no cycle.
use docke_compose_customize.Prelude.{
  ℕ, zero, suc, ◌≤◌, ◌<◌, String, ◌≡◌, ap, true, false, List, [], ◌∷◌, arith, ◌==◌, string_eq, elem,
  length, length-remove, All, All-of_elem, Bool-cases, Option-cases, inl, inr,
}
use docke_compose_customize.Result.{Result, ok, err, ◌>>=◌, for_each, Returns}
use docke_compose_customize.Config.SortServices.Errors.{Sorts}
use docke_compose_customize.Config.SortServices.{
  ServiceDict, dict_eq, Marks, get_service_dependents, get_last?, finish, visit, visit_all,
  start_marks, sort_service_dicts,
}
use docke_compose_customize.Config.SortServices.Measure.{free, free-cons-lt, free-le-length}
use docke_compose_customize.Config.SortServices.Visit.{
  IsMarked, Visited, visit_lem, entered, dependents_known,
}
use docke_compose_customize.Config.SortServices.Order.{
  IsOrderOf, IsBetween, IsBetween-visit, IsBetween-start, get_last?-elem, sort_service_dicts_lem,
}

-- Every service ranks below the services that depend on it.
abbrev pub IsRanked : (String → ℕ) → List ServiceDict → Type 0
IsRanked rank services =
    (n m : ServiceDict)
    → elem n services ≡ true
    → elem m (get_service_dependents n services) ≡ true
    → rank n.name < rank m.name

abbrev IsOk {ℓ} : {A : Type ℓ} → Result A → Type 0
IsOk (ok a) = Unit
IsOk (err e) = ⊥

Sorts→Returns {ℓ} : {A : Type ℓ} (Q : A → Type 0) (r : Result A) → Sorts Q r → IsOk r → Returns Q r
Sorts→Returns Q (ok a) h k = h
Sorts→Returns Q (err e) h k = k

IsOk-bind {ℓ κ} :
    {A : Type ℓ} {B : Type κ} (P : A → Type 0) (r : Result A) (f : A → Result B)
    → Sorts P r
    → IsOk r
    → ((a : A) → P a → IsOk (f a))
    → IsOk (r >>= f)
IsOk-bind P (ok a) f h k next = next a h
IsOk-bind P (err e) f h k next = k

IsOk-then {ℓ κ} :
    {A : Type ℓ} {B : Type κ} (r : Result A) (f : A → B) → IsOk r → IsOk (r >>= λ a. ok (f a))
IsOk-then (ok a) f h = tt
IsOk-then (err e) f h = h

module _ (rank : String → ℕ) (services : List ServiceDict) (ranked : IsRanked rank services) where
  abbrev Above : List String → ServiceDict → Type 0
  Above names n = All (λ t. rank t < rank n.name) names

  Above-trans :
      (names : List String) (n m : ServiceDict)
      → rank n.name < rank m.name
      → Above names n
      → Above names m
  Above-trans [] n m h k = tt
  Above-trans (t ∷ names) n m h k = (omega arith, Above-trans names n m h k.1)

  not-elem_of_Above :
      (names : List String) (n : ServiceDict) → Above names n → elem n.name names ≡ false
  not-elem_of_Above [] n h = ground arith
  not-elem_of_Above (t ∷ names) n h = elim (Bool-cases (t == n.name)) [
    | inl same ↦ absurd (omega (arith, ap rank ((string_eq.beq_iff t n.name).0 same)))
    | inr other ↦ rw other (not-elem_of_Above names n h.1)
  ]

  module _ (fuel : ℕ)
      (safe : (n : ServiceDict) (m : Marks)
        → elem n services ≡ true
        → IsMarked services m
        → free m.temporary_marked m.unmarked < fuel
        → Above m.temporary_marked n
        → IsOk (visit fuel services n m)) where
    for_each-IsOk :
        (ns : List ServiceDict) (m : Marks)
        → All (λ n. elem n services ≡ true) ns
        → IsMarked services m
        → free m.temporary_marked m.unmarked < fuel
        → All (Above m.temporary_marked) ns
        → IsOk (for_each (visit fuel services) ns m)
    for_each-IsOk [] m h k b above = tt
    for_each-IsOk (n ∷ ns) m h k b above =
        IsOk-bind (Visited services n m) (visit fuel services n m)
          (for_each (visit fuel services) ns) (visit_lem fuel services n m h.0 k b)
          (safe n m h.0 k b above.0)
          λ m1 v.
            for_each-IsOk ns m1 h.1 v.marked
              (rw v.grows.same (omega (arith, v.grows.fewer m.temporary_marked)))
              (rw v.grows.same above.1)

  visit-IsOk :
      (fuel : ℕ) (n : ServiceDict) (m : Marks)
      → elem n services ≡ true
      → IsMarked services m
      → free m.temporary_marked m.unmarked < fuel
      → Above m.temporary_marked n
      → IsOk (visit fuel services n m)
  unfolding visit
  visit-IsOk zero n m h k b above = absurd (omega arith)
  visit-IsOk (suc fuel) n m h k b above =
      let unseen = not-elem_of_Above m.temporary_marked n above in
      elim (Bool-cases (elem n m.unmarked)) [
        | inl new ↦
            rw (unseen, new)
              (IsOk-then _ (finish n) (
                for_each-IsOk fuel (visit-IsOk fuel) (get_service_dependents n services)
                  (entered n m) (dependents_known n services)
                  (record { covered = k.covered; sorted = k.sorted })
                  (omega (arith, free-cons-lt n m.temporary_marked m.unmarked new unseen))
                  (All-of_elem (Above (n.name ∷ m.temporary_marked))
                    (get_service_dependents n services)
                    (λ a e. (
                      ranked n a h e,
                      Above-trans m.temporary_marked n a (ranked n a h e) above,
                    )))))
        | inr old ↦ rw (unseen, old) tt
      ]

  visit_all-IsOk :
      (rounds : ℕ) (m : Marks)
      → IsBetween services m
      → length m.unmarked ≤ rounds
      → IsOk (visit_all rounds (suc (length services)) services m)
  unfolding visit_all
  visit_all-IsOk zero m b h = elim (Option-cases (get_last? m.unmarked)) [
    | inl empty ↦ rw (empty, visit_all) tt
    | inr (n, last) ↦
        absurd (omega (arith, length-remove n m.unmarked (get_last?-elem m.unmarked n last)))
  ]
  visit_all-IsOk (suc rounds) m b h = elim (Option-cases (get_last? m.unmarked)) [
    | inl empty ↦ rw (empty, visit_all) tt
    | inr (n, last) ↦
        let new = get_last?-elem m.unmarked n last in
        let deep : free m.temporary_marked m.unmarked < suc (length services) =
          omega (arith, free-le-length m.temporary_marked m.unmarked, b.shorter) in
        rw (last, visit_all)
          (IsOk-bind (Visited services n m) _ _
            (visit_lem (suc (length services)) services n m (b.known n new) b.marked deep)
            (visit-IsOk (suc (length services)) n m (b.known n new) b.marked deep (rw b.idle tt))
            (λ m' v.
              visit_all-IsOk rounds m' (IsBetween-visit services n m m' b v)
                (omega (arith, v.shrinks new))))
  ]

-- If some ranking of the names puts every service below all that depend on it, then sorting raises
-- no error: it returns the same services, each before all the services that depend on it.
pub sort_service_dicts-Returns :
    (rank : String → ℕ) (services : List ServiceDict)
    → IsRanked rank services
    → Returns (IsOrderOf services) (sort_service_dicts services)
unfolding sort_service_dicts
sort_service_dicts-Returns rank services ranked =
    Sorts→Returns (IsOrderOf services) (sort_service_dicts services)
      (sort_service_dicts_lem services)
      (visit_all-IsOk rank services ranked (length services) (start_marks services)
        (IsBetween-start services) (omega arith))
