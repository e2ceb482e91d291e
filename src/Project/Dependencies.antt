-- ===== src/Project/Dependencies.antt =====
-- get_services ends, and lists each service once and after those that it depends on.
use docke_compose_customize.Prelude.{
  String, ◌≡◌, refl, Bool, true, false, ◌&&◌, List, [], ◌∷◌, ◌++◌, ◌==◌, string_eq, filter, all,
  elem, elem-append, All, arith, Bool-cases, inl, inr,
}
use docke_compose_customize.Result.{Result, ok, traverse, ◌>>=◌, Returns, Returns-bind, Returns-map}
use docke_compose_customize.Project.{Service, service_names, get_service}
use docke_compose_customize.Project.Services.{is_nil, inject_deps, inject_all}
use docke_compose_customize.Project.Closure.{
  deps_before_mono, names-append, all_of-elem, Covers, IsClosed, IsClosed-append,
}

all-nil : (p : String → Bool) (names : List String) → is_nil names ≡ true → all p names ≡ true
all-nil p [] h = refl
all-nil p (n ∷ names) h = absurd (ground arith)

-- what is asked of the services that stand after `acc`
abbrev pub Added : List Service → List String → List Service → Type 0
Added acc names result = IsClosed result × Covers (service_names acc ++ names) result

abbrev pub Good : List String → Result (List Service) → Type 0
Good names r = Returns (λ result. IsClosed result × Covers names result) r

inject_deps-Added :
    (rec : List String → Result (List Service)) (acc : List Service) (s : Service)
    → IsClosed acc
    → (is_nil s.dependency_names ≡ false → Good s.dependency_names (rec s.dependency_names))
    → Returns (Added acc (s.name ∷ [])) (inject_deps rec acc s)
inject_deps-Added rec acc s h good = elim (Bool-cases (is_nil s.dependency_names)) [
  | inl none ↦
      let alone = all-nil (λ d. elem d (service_names acc)) s.dependency_names none in
      rw none (
        IsClosed-append acc (s ∷ []) h (ground (arith, alone)),
        λ n m. rw (names-append acc (s ∷ [])) m,
      )
  | inr some ↦ rw some (
      Returns-bind (λ result. IsClosed result × Covers s.dependency_names result)
        (Added acc (s.name ∷ [])) (rec s.dependency_names)
        (λ dep_services. ok (acc ++ (dep_services ++ s ∷ []))) (good some)
        (λ deps found. added deps found.0 found.1))
]
  where
    added :
        (deps : List Service)
        → IsClosed deps
        → Covers s.dependency_names deps
        → Added acc (s.name ∷ []) (acc ++ (deps ++ s ∷ []))
    added deps closed covers = (
      IsClosed-append acc (deps ++ s ∷ []) h (
          deps_before_mono [] (service_names acc) (deps ++ s ∷ []) (λ n m. absurd (ground arith))
            (IsClosed-append deps (s ∷ []) closed (
              ground (
                arith,
                all_of-elem (λ d. elem d (service_names deps)) s.dependency_names covers,
              )))),
      λ n m. rw (names-append acc (deps ++ s ∷ [])) (
          rw (names-append deps (s ∷ [])) (
            ground (
              arith,
              m,
              elem-append n (service_names acc) (s.name ∷ []),
              elem-append n (service_names acc) (service_names deps ++ s.name ∷ []),
              elem-append n (service_names deps) (s.name ∷ []),
            ))),
    )

pub inject_all-Added :
    (rec : List String → Result (List Service)) (acc services : List Service)
    → IsClosed acc
    → All
        (λ (s : Service).
          is_nil s.dependency_names ≡ false → Good s.dependency_names (rec s.dependency_names))
        services
    → Returns (Added acc (service_names services)) (inject_all rec acc services)
unfolding inject_all
inject_all-Added rec acc [] h good =
    (h, λ n m. ground (arith, elem-append n (service_names acc) [], m))
inject_all-Added rec acc (s ∷ services) h good =
    Returns-bind (Added acc (s.name ∷ [])) (Added acc (s.name ∷ service_names services))
      (inject_deps rec acc s) (λ acc'. inject_all rec acc' services)
      (inject_deps-Added rec acc s h good.0)
      (λ acc' first.
        Returns-map (Added acc' (service_names services))
          (Added acc (s.name ∷ service_names services)) (inject_all rec acc' services)
          (λ result rest. (rest.0, λ n m. rest.1 n (covered acc' first.1 n m)))
          (inject_all-Added rec acc' services first.0 good.1))
  where
    covered :
        (acc' : List Service)
        → Covers (service_names acc ++ s.name ∷ []) acc'
        → (n : String) → elem n (service_names acc ++ s.name ∷ service_names services) ≡ true
        → elem n (service_names acc' ++ service_names services) ≡ true
    covered acc' h n m = ground (
      arith,
      m,
      h n,
      elem-append n (service_names acc) (s.name ∷ []),
      elem-append n (service_names acc) (s.name ∷ service_names services),
      elem-append n (service_names acc') (service_names services),
    )

pub get_service-names :
    (services : List Service) (name : String)
    → elem name (service_names services) ≡ true
    → Returns (λ (s : Service). s.name ≡ name) (get_service services name)
unfolding get_service
get_service-names [] name h = absurd (ground arith)
get_service-names (s ∷ services) name h = elim (Bool-cases (s.name == name)) [
  | inl same ↦ rw same ((string_eq.beq_iff s.name name).0 same)
  | inr other ↦ rw other (get_service-names services name (ground arith))
]

pub traverse-names :
    (services : List Service) (names : List String)
    → all (λ n. elem n (service_names services)) names ≡ true
    → Returns (λ found. service_names found ≡ names) (traverse (get_service services) names)
traverse-names services [] h = refl
traverse-names services (n ∷ names) h =
    Returns-bind (λ (s : Service). s.name ≡ n) (λ found. service_names found ≡ n ∷ names)
      (get_service services n) (λ s. traverse (get_service services) names >>= λ ss. ok (s ∷ ss))
      (get_service-names services n (ground arith))
      (λ s same.
        Returns-bind (λ found. service_names found ≡ names)
          (λ found. service_names found ≡ n ∷ names) (traverse (get_service services) names)
          (λ ss. ok (s ∷ ss)) (traverse-names services names (ground arith))
          (λ ss rest. ground (arith, same, rest)))

pub elem-selected :
    (n : String) (names : List String) (services : List Service)
    → elem n (service_names (filter (λ (s : Service). elem s.name names) services))
      ≡ (elem n (service_names services) && elem n names)
elem-selected n names [] = refl
elem-selected n names (s ∷ services) =
    ground (arith, string_eq.beq_iff s.name n, elem-selected n names services)
