-- ===== src/Config/SortServices/Visit.antt =====
-- What one `visit` does to the marks: it terminates, moves services from `unmarked` to
-- `sorted_services`, and leaves behind each sorted service all that depend on it.
use mathlib.Core.List.{Perm, perm_middle}
use mathlib.Core.List.Perm
use docke_compose_customize.Prelude.{
  ℕ, zero, suc, ◌≤◌, ◌<◌, String, ◌≡◌, refl, true, false, ◌||◌, List, [], ◌∷◌, ◌++◌, arith,
  string_eq, elem, remove, elem-remove_ne, elem_of-remove, length, length-remove, length-remove-le,
  remove-perm, All, All-of_elem, elem-filter, any, ap, Bool-cases, inl, inr, eq_refl,
}
use docke_compose_customize.Result.{Result, for_each}
use docke_compose_customize.Config.SortServices.Errors.{Sorts, Sorts-map, Sorts-bind}
use docke_compose_customize.Config.SortServices.{
  ServiceDict, dict_eq, Marks, get_service_dependents, cycle_error, depends_on_name,
  get_service_names, text_eq_spec, finish, visit,
}
use docke_compose_customize.Config.SortServices.Measure.{free, free-remove, free-cons-lt}

-- Each service stands before all that depend on it.
abbrev pub IsSorted : List ServiceDict → List ServiceDict → Type 0
IsSorted services [] = Unit
IsSorted services (n ∷ rest) =
    All (λ m. elem m rest ≡ true) (get_service_dependents n services) × IsSorted services rest

-- The invariant of the marks: every service is unmarked or sorted.
pub record IsMarked (services : List ServiceDict) (m : Marks) : Type 0 where
  pub covered :
      (x : ServiceDict)
      → elem x services ≡ true
      → (elem x m.unmarked || elem x m.sorted_services) ≡ true
  pub sorted : IsSorted services m.sorted_services

-- What a visit may change.
pub record Grows (m m' : Marks) : Type 0 where
  pub same : m'.temporary_marked ≡ m.temporary_marked
  pub sorted :
      (x : ServiceDict) → elem x m.sorted_services ≡ true → elem x m'.sorted_services ≡ true
  pub held :
      (x : ServiceDict)
      → elem x.name m.temporary_marked ≡ true
      → elem x m.unmarked ≡ true
      → elem x m'.unmarked ≡ true
  pub within : (x : ServiceDict) → elem x m'.unmarked ≡ true → elem x m.unmarked ≡ true
  pub shorter : length m'.unmarked ≤ length m.unmarked
  pub fewer : (names : List String) → free names m'.unmarked ≤ free names m.unmarked
  pub moved : Perm (m'.sorted_services ++ m'.unmarked) (m.sorted_services ++ m.unmarked)

Grows-refl : (m : Marks) → Grows m m
Grows-refl m = record {
  same = refl;
  sorted = λ x h. h;
  held = λ x h k. k;
  within = λ x k. k;
  shorter = omega arith;
  fewer = λ names. omega arith;
  moved = Perm.refl _;
}

Grows-trans : (a b c : Marks) → Grows a b → Grows b c → Grows a c
Grows-trans a b c g h = record {
  same = cc (g.same, h.same);
  sorted = λ x k. h.sorted x (g.sorted x k);
  held = λ x k u. h.held x (rw g.same k) (g.held x k u);
  within = λ x k. g.within x (h.within x k);
  shorter = omega (arith, g.shorter, h.shorter);
  fewer = λ names. omega (arith, g.fewer names, h.fewer names);
  moved = Perm.trans h.moved g.moved;
}

-- What a visit of `n` promises.
pub record Visited (services : List ServiceDict) (n : ServiceDict) (m m' : Marks) : Type 0 where
  pub marked : IsMarked services m'
  pub grows : Grows m m'
  pub done : elem n m'.sorted_services ≡ true
  pub shrinks : elem n m.unmarked ≡ true → length m'.unmarked < length m.unmarked

pub record VisitedAll (services ns : List ServiceDict) (m m' : Marks) : Type 0 where
  pub marked : IsMarked services m'
  pub grows : Grows m m'
  pub done : All (λ n. elem n m'.sorted_services ≡ true) ns

cycle_error_lem :
    (services : List ServiceDict) (n : ServiceDict) (m : Marks) (temporary : List String)
    → Sorts (Visited services n m) (cycle_error n temporary)
unfolding cycle_error
cycle_error_lem services n m temporary =
    elim (Bool-cases (elem n.name (get_service_names n.links))) [
      | inl linked ↦ rw linked refl
      | inr unlinked ↦ elim (Bool-cases (any (text_eq_spec n.name) n.volumes_from)) [
        | inl mounts ↦ rw (unlinked, mounts) refl
        | inr other ↦ elim (Bool-cases (elem n.name n.depends_on)) [
          | inl depends ↦ rw (unlinked, other, depends) refl
          | inr round ↦ rw (unlinked, other, round) refl
        ]
      ]
    ]

module _ (fuel : ℕ) (services : List ServiceDict) (f : ServiceDict → Marks → Result Marks)
    (step : (n : ServiceDict) (m : Marks)
      → elem n services ≡ true
      → IsMarked services m
      → free m.temporary_marked m.unmarked < fuel
      → Sorts (Visited services n m) (f n m)) where
  for_each_lem :
      (ns : List ServiceDict) (m : Marks)
      → All (λ n. elem n services ≡ true) ns
      → IsMarked services m
      → free m.temporary_marked m.unmarked < fuel
      → Sorts (VisitedAll services ns m) (for_each f ns m)
  for_each_lem [] m h k b = record { marked = k; grows = Grows-refl m; done = tt }
  for_each_lem (n ∷ ns) m h k b =
      Sorts-bind (Visited services n m) (VisitedAll services (n ∷ ns) m) (f n m) (for_each f ns)
        (step n m h.0 k b)
        λ m1 v.
          Sorts-map (VisitedAll services ns m1) (VisitedAll services (n ∷ ns) m) (for_each f ns m1)
            (λ m2 w. record {
              marked = w.marked;
              grows = Grows-trans m m1 m2 v.grows w.grows;
              done = (w.grows.sorted n v.done, w.done);
            })
            (for_each_lem ns m1 h.1 v.marked
              (rw v.grows.same (omega (arith, v.grows.fewer m.temporary_marked))))

pub dependents_known :
    (n : ServiceDict) (services : List ServiceDict)
    → All (λ m. elem m services ≡ true) (get_service_dependents n services)
unfolding get_service_dependents
dependents_known n services =
    All-of_elem _ _ λ a h. ground (arith, elem-filter a (depends_on_name n.name) services)

abbrev pub entered : ServiceDict → Marks → Marks
entered n m = record m { temporary_marked = n.name ∷ m.temporary_marked }

finish_lem :
    (services : List ServiceDict) (n : ServiceDict) (m after : Marks)
    → elem n m.unmarked ≡ true
    → elem n.name m.temporary_marked ≡ false
    → VisitedAll services (get_service_dependents n services) (entered n m) after
    → Visited services n m (finish n after)
finish_lem services n m after new unseen v = record {
  marked = record {
    covered = λ x h.
        ground
          (arith, v.marked.covered x h, elem-remove_ne x n after.unmarked, dict_eq.beq_iff n x);
    sorted = (v.done, v.marked.sorted);
  };
  grows = record {
    same = rw (v.grows.same, eq_refl n.name);
    sorted = λ x h. ground (arith, v.grows.sorted x h);
    held = λ x h k.
        rw
          (elem-remove_ne x n after.unmarked
            (λ e. cc (ap (λ (s : ServiceDict). elem s.name m.temporary_marked) e)))
          (v.grows.held x (ground arith) k);
    within = λ x h. v.grows.within x (elem_of-remove x n after.unmarked h);
    shorter = omega (arith, v.grows.shorter, length-remove-le n after.unmarked);
    fewer = λ names. omega (arith, v.grows.fewer names, free-remove names n after.unmarked);
    moved = Perm.trans (Perm.symm (perm_middle after.sorted_services (remove n after.unmarked))) (
        Perm.trans
          (Perm.append_left after.sorted_services
            (Perm.symm (remove-perm n after.unmarked (v.grows.held n (rw (eq_refl n.name)) new))))
          v.grows.moved);
  };
  done = rw (eq_refl n);
  shrinks = λ _. omega (
    arith,
    v.grows.shorter,
    length-remove n after.unmarked (v.grows.held n (rw (eq_refl n.name)) new),
  );
}

pub visit_lem :
    (fuel : ℕ) (services : List ServiceDict) (n : ServiceDict) (m : Marks)
    → elem n services ≡ true
    → IsMarked services m
    → free m.temporary_marked m.unmarked < fuel
    → Sorts (Visited services n m) (visit fuel services n m)
unfolding visit
visit_lem zero services n m h k b = absurd (omega arith)
visit_lem (suc fuel) services n m h k b = elim (Bool-cases (elem n.name m.temporary_marked)) [
  | inl seen ↦ rw seen (cycle_error_lem services n m m.temporary_marked)
  | inr unseen ↦ elim (Bool-cases (elem n m.unmarked)) [
    | inl new ↦
        rw (unseen, new)
          (Sorts-bind (VisitedAll services (get_service_dependents n services) (entered n m))
            (Visited services n m) _ _
            (for_each_lem fuel services (visit fuel services) (visit_lem fuel services)
              (get_service_dependents n services) (entered n m) (dependents_known n services)
              (record { covered = k.covered; sorted = k.sorted })
              (omega (arith, free-cons-lt n m.temporary_marked m.unmarked new unseen)))
            (λ after v. finish_lem services n m after new unseen v))
    | inr old ↦
        rw (unseen, old)
          (record {
            marked = k;
            grows = Grows-refl m;
            done = (ground (arith, k.covered n h));
            shrinks = λ e. cc;
          })
  ]
]
