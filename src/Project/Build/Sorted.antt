-- ===== src/Project/Build/Sorted.antt =====
-- from_config on the services in the order of sort_service_dicts.
use mathlib.Core.List.{Perm, Permᴰ}
use mathlib.Core.Logic.{∥∥₁_elim}
use mathlib.Core.Bool.{Bool-set}
use docke_compose_customize.Prelude.{
  String, ◌≡◌, refl, ap, sym, subst, ◌∙◌, Bool, true, ◌||◌, Option, none, some, List, [], ◌∷◌, ◌++◌,
  map, ◌==◌, string_eq, option_eq, eq_refl, all, elem, elem-append, elem-filter, All-elem, arith,
  Bool-cases, inl, inr,
}
use docke_compose_customize.Result.{ok}
use docke_compose_customize.Container.{Container}
use docke_compose_customize.Config.Types.{VolumeFromSpec}
use docke_compose_customize.Config.SortServices.Errors.{Sorts}
use docke_compose_customize.Config.SortServices.{
  ServiceDict, dict_eq, depends_on_name, get_service_dependents, get_service_names,
  get_service_names_from_volumes_from, get_service_name_from_network_mode, sort_service_dicts,
}
use docke_compose_customize.Config.SortServices.Visit.{IsSorted}
use docke_compose_customize.Config.SortServices.Order.{IsOrderOf, sort_service_dicts_lem}
use docke_compose_customize.Service.Modes.{ServiceObject, present}
use docke_compose_customize.Project.Closure.{are_distinct}
use docke_compose_customize.Project.Build.{ServiceConfig, Surroundings, from_config}
use docke_compose_customize.Project.Build.Fine.{Fine}
use docke_compose_customize.Project.Build.References.{has_source, is_resolved}
use docke_compose_customize.Project.Build.Order.{in_order, config_names, Built, from_config-Built}

abbrev pub dict_names : List ServiceDict → List String
dict_names ds = map (λ (d : ServiceDict). d.name) ds

abbrev pub tail : List ServiceDict → List ServiceDict
tail [] = []
tail (d ∷ ds) = ds

elem-Permᴰ :
    (x : ServiceDict) (a b : List ServiceDict) → Permᴰ a b → elem x a ≡ true → elem x b ≡ true
elem-Permᴰ x [] [] Permᴰ.nil h = h
elem-Permᴰ x (a ∷ as') (b ∷ bs) (Permᴰ.cons same p) h =
    ground (arith, same, h, elem-Permᴰ x as' bs p)
elem-Permᴰ x _ _ (Permᴰ.swap p q) h = ground (arith, p, q, h)
elem-Permᴰ x a b (Permᴰ.trans p q) h = elem-Permᴰ x _ b q (elem-Permᴰ x a _ p h)

elem-Perm :
    (x : ServiceDict) (a b : List ServiceDict) → Perm a b → elem x a ≡ true → elem x b ≡ true
elem-Perm x a b p h = ∥∥₁_elim p (Bool-set (elem x b) true) (λ d. elem-Permᴰ x a b d h)

-- A service that depends on a name among the services stands after the first of them.
dependent_later :
    (services l : List ServiceDict) (x : ServiceDict) (name : String)
    → IsSorted services l
    → elem x services ≡ true
    → depends_on_name name x ≡ true
    → elem name (dict_names l) ≡ true
    → elem x (tail l) ≡ true
unfolding get_service_dependents
dependent_later services [] x name sorted known depends h = absurd (ground arith)
dependent_later services (d ∷ l) x name sorted known depends h =
    elim (Bool-cases (d.name == name)) [
      | inl same ↦
          All-elem (λ m. elem m l ≡ true) (get_service_dependents d services) x sorted.0
            (elem-filter x (depends_on_name d.name) services
              ∙ rw ((string_eq.beq_iff d.name name).0 same) (rw depends (rw known refl)))
      | inr other ↦
          in_tail l x
            (dependent_later services l x name sorted.1 known depends (ground (arith, h, other)))
    ]
  where
    in_tail : (l : List ServiceDict) (x : ServiceDict) → elem x (tail l) ≡ true → elem x l ≡ true
    in_tail [] x h = h
    in_tail (d ∷ l) x h = ground (arith, h)

elem-dict_names :
    (x : ServiceDict) (l : List ServiceDict) → elem x l ≡ true → elem x.name (dict_names l) ≡ true
elem-dict_names x [] h = h
elem-dict_names x (d ∷ l) h = elim (Bool-cases (d == x)) [
  | inl same ↦ rw ((dict_eq.beq_iff d x).0 same) (rw (eq_refl x.name) refl)
  | inr other ↦ ground (arith, elem-dict_names x l (ground (arith, h, other)))
]

all_sub :
    (p q : String → Bool) (names : List String)
    → ((n : String) → elem n names ≡ true → p n ≡ true → q n ≡ true)
    → all p names ≡ true
    → all q names ≡ true
all_sub p q [] h k = refl
all_sub p q (n ∷ names) h k = ground (
  arith,
  eq_refl n,
  h n,
  all_sub p q names (λ m there. h m (ground (arith, there))) (ground (arith, k)),
)

sources_sub :
    (find : String → Option Container) (names done : List String) (vs : List VolumeFromSpec)
    → ((n : String)
        → elem n (get_service_names_from_volumes_from vs) ≡ true
        → elem n names ≡ true
        → elem n done ≡ true)
    → all (has_source find names) vs ≡ true
    → all (has_source find done) vs ≡ true
unfolding get_service_names_from_volumes_from
sources_sub find names done [] h k = refl
sources_sub find names done (v ∷ vs) h k = ground (
  arith,
  eq_refl v.source,
  h v.source,
  sources_sub find names done vs (λ n there. h n (ground (arith, there))) (ground (arith, k)),
)

present_sub :
    (names done : List String) (service_name : Option String)
    → ((n : String) → (some n == service_name) ≡ true → elem n names ≡ true → elem n done ≡ true)
    → all (λ n. elem n names) (present service_name) ≡ true
    → all (λ n. elem n done) (present service_name) ≡ true
present_sub names done none h k = refl
present_sub names done (some n) h k = ground (arith, eq_refl n, h n)

-- The names by which a service is sorted are those that it refers to.
resolved_sub :
    (find : String → Option Container) (names done : List String) (d : ServiceDict)
    → ((n : String) → depends_on_name n d ≡ true → elem n names ≡ true → elem n done ≡ true)
    → is_resolved find names d ≡ true
    → is_resolved find done d ≡ true
unfolding depends_on_name
resolved_sub find names done d h k = ground (
  arith,
  all_sub (λ n. elem n names) (λ n. elem n done) (get_service_names d.links)
      (λ n there. h n (ground (arith, there))) (ground (arith, k)),
  sources_sub find names done d.volumes_from (λ n there. h n (ground (arith, there)))
      (ground (arith, k)),
  present_sub names done (get_service_name_from_network_mode d.network_mode)
      (λ n there. h n (ground (arith, there))) (ground (arith, k)),
  all_sub (λ n. elem n names) (λ n. elem n done) d.depends_on
      (λ n there. h n (ground (arith, there))) (ground (arith, k)),
)

module _ {Definition : Type 0} where
  abbrev pub dicts : List (ServiceConfig Definition) → List ServiceDict
  dicts cs = map (λ (c : ServiceConfig Definition). c.dict) cs

  names-dicts : (cs : List (ServiceConfig Definition)) → dict_names (dicts cs) ≡ config_names cs
  names-dicts [] = refl
  names-dicts (c ∷ cs) = ap (λ ns. c.dict.name ∷ ns) (names-dicts cs)

  -- every service of the list refers to the services of the names
  abbrev pub all_resolved :
      (String → Option Container) → List String → List (ServiceConfig Definition) → Bool
  all_resolved find names cs =
      all (λ (c : ServiceConfig Definition). is_resolved find names c.dict) cs

  sorted_in_order :
      (find : String → Option Container) (services : List ServiceDict) (done names : List String)
      (cs : List (ServiceConfig Definition))
      → IsSorted services (dicts cs)
      → ((x : ServiceDict) → elem x (dicts cs) ≡ true → elem x services ≡ true)
      → are_distinct (config_names cs) ≡ true
      → ((n : String) → elem n names ≡ true → (elem n done || elem n (config_names cs)) ≡ true)
      → all_resolved find names cs ≡ true
      → in_order find done cs ≡ true
  sorted_in_order find services done names [] sorted known distinct split h = refl
  sorted_in_order find services done names (c ∷ cs) sorted known distinct split h = ground (
    arith,
    resolved_sub find names done c.dict first (ground (arith, h)),
    sorted_in_order find services (done ++ c.dict.name ∷ []) names cs sorted.1
        (λ x there. known x (ground (arith, there))) (ground (arith, distinct))
        (λ n there. ground (arith, split n there, elem-append n done (c.dict.name ∷ [])))
        (ground (arith, h)),
  )
    where
      first :
          (n : String) → depends_on_name n c.dict ≡ true → elem n names ≡ true → elem n done ≡ true
      first n depends there = elim (Bool-cases (elem n done)) [
        | inl before ↦ before
        | inr after ↦
            let later =
              dependent_later services (dicts (c ∷ cs)) c.dict n sorted
                (known c.dict (rw (eq_refl c.dict) refl)) depends
                (subst (λ ns. elem n ns ≡ true) (sym (names-dicts (c ∷ cs)))
                  (ground (arith, split n there, after))) in
            absurd (
              ground (
                arith,
                distinct,
                subst (λ ns. elem c.dict.name ns ≡ true) (names-dicts cs)
                    (elem-dict_names c.dict (dicts cs) later),
              ))
      ]

  -- Where services that sort_service_dicts has sorted have different names, and refer by links,
  -- network mode and depends_on to services among them alone, and by volumes_from to these or to
  -- containers that are found, from_config raises neither NoSuchService nor the error of a link or of
  -- a volumes_from. What it returns are the services in the same order, each after its dependencies.
  pub from_config-sorted :
      (hash : ServiceObject Definition → Option String)
      (containers : ServiceObject Definition → List Container) (around : Surroundings Definition)
      (services : List ServiceDict) (cs : List (ServiceConfig Definition))
      → sort_service_dicts services ≡ ok (dicts cs)
      → are_distinct (config_names cs) ≡ true
      → all_resolved around.find (config_names cs) cs ≡ true
      → Fine (Built hash containers (config_names cs)) (from_config around cs)
  from_config-sorted hash containers around services cs same distinct resolved =
      let order = subst (Sorts (IsOrderOf services)) same (sort_service_dicts_lem services) in
      from_config-Built hash containers around cs (
        sorted_in_order around.find services [] (config_names cs) cs order.ordered
          (λ x there. elem-Perm x (dicts cs) services order.same there) distinct (λ n there. there)
          resolved)
