-- ===== src/Config/SortServices/Order.antt =====
-- `sort_service_dicts` ends, keeps the services and puts each before those that depend on it.
use mathlib.Core.List.{Perm, append-nil}
use mathlib.Core.List.Perm
use docke_compose_customize.Prelude.{
  ℕ, zero, suc, ◌≤◌, ◌≡◌, refl, true, none, some, List, [], ◌∷◌, ◌++◌, arith, elem, length,
  length-remove, subst, ap, ◌∙◌, Option-cases, inl, inr,
}
use docke_compose_customize.Config.SortServices.Errors.{Sorts, Sorts-bind}
use docke_compose_customize.Config.SortServices.{
  ServiceDict, dict_eq, Marks, get_last?, visit_all, start_marks, sort_service_dicts,
}
use docke_compose_customize.Config.SortServices.Measure.{free-le-length}
use docke_compose_customize.Config.SortServices.Visit.{IsSorted, IsMarked, Visited, visit_lem}

-- What sorting promises: the same services, each before all that depend on it.
pub record IsOrderOf (services sorted : List ServiceDict) : Type 0 where
  pub same : Perm sorted services
  pub ordered : IsSorted services sorted

pub get_last?-none : (l : List ServiceDict) → get_last? l ≡ none → l ≡ []
get_last?-none [] h = refl
get_last?-none (x ∷ []) h = cc
get_last?-none (x ∷ y ∷ l) h = cc (get_last?-none (y ∷ l) h)

pub get_last?-elem :
    (l : List ServiceDict) (n : ServiceDict) → get_last? l ≡ some n → elem n l ≡ true
get_last?-elem [] n h = cc
get_last?-elem (x ∷ []) n h = ground (arith, dict_eq.beq_iff x n)
get_last?-elem (x ∷ y ∷ l) n h = ground (arith, get_last?-elem (y ∷ l) n h)

-- The state between two rounds of the `while` loop.
pub record IsBetween (services : List ServiceDict) (m : Marks) : Type 0 where
  pub marked : IsMarked services m
  pub idle : m.temporary_marked ≡ []
  pub moved : Perm (m.sorted_services ++ m.unmarked) services
  pub known : (x : ServiceDict) → elem x m.unmarked ≡ true → elem x services ≡ true
  pub shorter : length m.unmarked ≤ length services

pub IsBetween-visit :
    (services : List ServiceDict) (n : ServiceDict) (m m' : Marks)
    → IsBetween services m
    → Visited services n m m'
    → IsBetween services m'
IsBetween-visit services n m m' b v = record {
  marked = v.marked;
  idle = cc (v.grows.same, b.idle);
  moved = Perm.trans v.grows.moved b.moved;
  known = λ x h. b.known x (v.grows.within x h);
  shorter = omega (arith, v.grows.shorter, b.shorter);
}

finished :
    (services : List ServiceDict) (m : Marks)
    → IsBetween services m
    → m.unmarked ≡ []
    → IsOrderOf services m.sorted_services
finished services m b e = record {
  same =
      subst (λ l. Perm l services)
        (ap (λ l. m.sorted_services ++ l) e ∙ append-nil m.sorted_services) b.moved;
  ordered = b.marked.sorted;
}

visit_all_lem :
    (rounds : ℕ) (services : List ServiceDict) (m : Marks)
    → IsBetween services m
    → length m.unmarked ≤ rounds
    → Sorts (IsOrderOf services) (visit_all rounds (suc (length services)) services m)
unfolding visit_all
visit_all_lem zero services m b h = elim (Option-cases (get_last? m.unmarked)) [
  | inl empty ↦ rw (empty, visit_all) (finished services m b (get_last?-none m.unmarked empty))
  | inr (n, last) ↦
      absurd (omega (arith, length-remove n m.unmarked (get_last?-elem m.unmarked n last)))
]
visit_all_lem (suc rounds) services m b h = elim (Option-cases (get_last? m.unmarked)) [
  | inl empty ↦ rw (empty, visit_all) (finished services m b (get_last?-none m.unmarked empty))
  | inr (n, last) ↦
      let new = get_last?-elem m.unmarked n last in
      rw (last, visit_all)
        (Sorts-bind (Visited services n m) (IsOrderOf services) _ _
          (visit_lem (suc (length services)) services n m (b.known n new) b.marked
            (omega (arith, free-le-length m.temporary_marked m.unmarked, b.shorter)))
          (λ m' v.
            visit_all_lem rounds services m' (IsBetween-visit services n m m' b v)
              (omega (arith, v.shrinks new))))
]

pub IsBetween-start : (services : List ServiceDict) → IsBetween services (start_marks services)
IsBetween-start services = record {
  marked = record { covered = λ x h. ground arith; sorted = tt };
  idle = refl;
  moved = Perm.refl services;
  known = λ x h. h;
  shorter = omega arith;
}

-- Sorting ends for every list of services, with a DependencyError or with the same services, each
-- before all the services that depend on it.
pub sort_service_dicts_lem :
    (services : List ServiceDict) → Sorts (IsOrderOf services) (sort_service_dicts services)
unfolding sort_service_dicts
sort_service_dicts_lem services =
    visit_all_lem (length services) services (start_marks services) (IsBetween-start services)
      (omega arith)
