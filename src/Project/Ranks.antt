-- ===== src/Project/Ranks.antt =====
-- The services that get_services finds, where the dependencies have ranks.
use docke_compose_customize.Prelude.{
  ℕ, zero, suc, String, ◌≡◌, refl, ◌<◌, Bool, true, false, ◌&&◌, List, [], ◌∷◌, string_eq, filter,
  all, elem, all-elem, All, ltb, arith, Bool-cases, inl, inr,
}
use docke_compose_customize.Result.{
  Result, ok, err, traverse, ◌>>=◌, Returns, Returns-bind, Returns-map,
}
use docke_compose_customize.Project.{Service, service_names, get_service}
use docke_compose_customize.Project.Services.{
  is_nil, append_unique, inject_all, selected, wanted, unique_services, get_services,
}
use docke_compose_customize.Project.Closure.{
  all_of-elem, Covers, IsClosed, Once, append_unique-Closed,
}
use docke_compose_customize.Project.Needs.{Needs, IfOk, get_services-Needs}
use docke_compose_customize.Project.Dependencies.{
  Good, Added, inject_all-Added, traverse-names, elem-selected,
}

-- the dependencies of a service are services of the project, and of a smaller rank
abbrev pub Ranked : List Service → (String → ℕ) → List Service → Type 0
Ranked services rank = All (λ (s : Service).
    all (λ d. elem d (service_names services) && ltb (rank d) (rank s.name)) s.dependency_names
    ≡ true)

-- the services of the names, and of a rank of at most `bound`
abbrev pub are_bounded : List Service → (String → ℕ) → ℕ → List String → Bool
are_bounded services rank bound =
    all (λ n. elem n (service_names services) && ltb (rank n) (suc bound))

-- the services of the names, each once and after those that it depends on
abbrev pub Ordered : List String → List Service → Type 0
Ordered names result =
    IsClosed result × Once result × (all (λ n. elem n (service_names result)) names ≡ true)

module _ (services : List Service) (rank : String → ℕ) where
  bounded_deps :
      (bound : ℕ) (s : String) (deps : List String)
      → all (λ d. elem d (service_names services) && ltb (rank d) (rank s)) deps ≡ true
      → rank s < suc (suc bound)
      → are_bounded services rank bound deps ≡ true
  bounded_deps bound s [] h k = refl
  bounded_deps bound s (d ∷ deps) h k = ground (arith, bounded_deps bound s deps)

  no_deps :
      (s : String) (deps : List String)
      → all (λ d. elem d (service_names services) && ltb (rank d) (rank s)) deps ≡ true
      → rank s < 1
      → is_nil deps ≡ false
      → ⊥
  no_deps s [] h k m = ground arith
  no_deps s (d ∷ deps) h k m = ground arith

  -- what the recursive calls give for the selected services
  Good-selected :
      (bound : ℕ) (rec : List String → Result (List Service)) (names : List String)
      → ((s : Service)
          → all
              (λ d. elem d (service_names services) && ltb (rank d) (rank s.name))
              s.dependency_names
            ≡ true
          → rank s.name < suc bound
          → is_nil s.dependency_names ≡ false
          → Good s.dependency_names (rec s.dependency_names))
      → are_bounded services rank bound names ≡ true
      → (ss : List Service) → Ranked services rank ss
      → All
          (λ (s : Service).
            is_nil s.dependency_names ≡ false → Good s.dependency_names (rec s.dependency_names))
          (filter (λ (s : Service). elem s.name names) ss)
  Good-selected bound rec names ih h [] ranked = tt
  Good-selected bound rec names ih h (s ∷ ss) ranked = elim (Bool-cases (elem s.name names)) [
    | inl there ↦ rw there (
      ih s ranked.0 (
          ground (
            arith,
            all-elem (λ n. elem n (service_names services) && ltb (rank n) (suc bound)) names s.name
                h there,
          )),
      Good-selected bound rec names ih h ss ranked.1,
    )
    | inr away ↦ rw away (Good-selected bound rec names ih h ss ranked.1)
  ]

  unique-Ordered :
      (names : List String) (found : List Service)
      → IsClosed found
      → Covers names found
      → Returns (Ordered names) (unique_services found)
  unique-Ordered names found closed covers =
      let (unique_closed, once, kept) = append_unique-Closed [] found refl refl closed in
      (
        unique_closed,
        once,
        all_of-elem (λ n. elem n (service_names (append_unique [] found))) names
            (λ n m. kept n (covers n m)),
      )

  -- one call, of which the recursive calls are right
  call_Ordered :
      (bound : ℕ) (rec : List String → Result (List Service)) (names : List String)
      → Ranked services rank services
      → ((s : Service)
          → all
              (λ d. elem d (service_names services) && ltb (rank d) (rank s.name))
              s.dependency_names
            ≡ true
          → rank s.name < suc bound
          → is_nil s.dependency_names ≡ false
          → Good s.dependency_names (rec s.dependency_names))
      → are_bounded services rank bound names ≡ true
      → Returns (Ordered names) (
          traverse (get_service services) names >>= λ unsorted.
          (inject_all rec [] (selected services unsorted) >>= λ found. unique_services found))
  call_Ordered bound rec names ranked ih h =
      Returns-bind (λ unsorted. service_names unsorted ≡ names) (Ordered names)
        (traverse (get_service services) names)
        (λ unsorted.
          inject_all rec [] (selected services unsorted) >>= λ found. unique_services found)
        (traverse-names services names (known names h))
        (λ unsorted same.
          Returns-bind (Added [] (service_names (selected services unsorted))) (Ordered names)
            (inject_all rec [] (selected services unsorted)) (λ found. unique_services found)
            (inject_all-Added rec [] (selected services unsorted) refl
              (rw same (Good-selected bound rec names ih h services ranked)))
            (λ found added. unique-Ordered names found added.0 (λ n m. added.1 n (
              rw same (
                rw (elem-selected n names services) (
                  ground (
                    arith,
                    m,
                    all-elem (λ d. elem d (service_names services)) names n (known names h) m,
                  )))))))
    where
      known :
          (names : List String)
          → are_bounded services rank bound names ≡ true
          → all (λ n. elem n (service_names services)) names ≡ true
      known [] h = refl
      known (n ∷ names) h = ground (arith, known names)

  get_services_lem :
      Ranked services rank services
      → (bound : ℕ) (names : List String)
      → are_bounded services rank bound (wanted services names) ≡ true
      → Returns (Ordered (wanted services names)) (get_services (suc bound) services names true)
  unfolding get_services
  get_services_lem ranked zero names h =
      call_Ordered 0 (λ deps. get_services 0 services deps true) (wanted services names) ranked
        (λ s deps low some. absurd (no_deps s.name s.dependency_names deps low some)) h
  get_services_lem ranked (suc bound) names h =
      call_Ordered (suc bound) (λ deps. get_services (suc bound) services deps true)
        (wanted services names) ranked
        (λ s deps low some.
          Returns-map (Ordered (wanted services s.dependency_names))
            (λ result. IsClosed result × Covers s.dependency_names result)
            (get_services (suc bound) services s.dependency_names true)
            (λ result found. (
              found.0,
              λ n m.
                  all-elem (λ d. elem d (service_names result)) s.dependency_names n
                    (ground (arith, found.2, some)) m,
            ))
            (get_services_lem ranked bound s.dependency_names
              (rw some (bounded_deps bound s.name s.dependency_names deps low))))
        h

  -- Where the services that a service depends on are services of the project and of a smaller rank,
  -- and the ranks of the wanted services are at most `bound`, get_services with dependencies ends
  -- within one level of recursion more than that, and what it returns are the wanted services and
  -- those that one of them depends on, directly or not, and no other, each once and after those that
  -- it depends on.
  pub get_services-Ordered :
      Ranked services rank services
      → (bound : ℕ) (names : List String)
      → are_bounded services rank bound (wanted services names) ≡ true
      → Returns
          (λ result.
            Ordered (wanted services names) result
            × All (Needs services (wanted services names)) result)
          (get_services (suc bound) services names true)
  get_services-Ordered ranked bound names h =
      needed_too (Ordered (wanted services names)) (All (Needs services (wanted services names)))
        (get_services (suc bound) services names true) (get_services_lem ranked bound names h)
        (get_services-Needs services (suc bound) names)
    where
      needed_too :
          (P Q : List Service → Type 0) (r : Result (List Service))
          → Returns P r
          → IfOk Q r
          → Returns (λ result. P result × Q result) r
      needed_too P Q (ok result) h k = (h, k)
      needed_too P Q (err e) h k = absurd h
