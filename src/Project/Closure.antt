-- ===== src/Project/Closure.antt =====
-- Lists of services in which each stands after those that it depends on, and what append_unique
-- makes of them.
use docke_compose_customize.Prelude.{
  String, ◌≡◌, refl, ap, Bool, true, false, not, ◌&&◌, List, [], ◌∷◌, ◌++◌, string_eq, eq_refl, all,
  elem, elem-append, arith, Bool-cases, inl, inr,
}
use docke_compose_customize.Project.{Service, service_names}
use docke_compose_customize.Project.Services.{append_unique}

-- each service stands after those that it depends on, where `seen` stand before
abbrev pub deps_before : List String → List Service → Bool
deps_before seen [] = true
deps_before seen (s ∷ services) =
    all (λ d. elem d seen) s.dependency_names && deps_before (s.name ∷ seen) services

abbrev pub are_distinct : List String → Bool
are_distinct [] = true
are_distinct (n ∷ names) = not (elem n names) && are_distinct names

pub names-append :
    (a b : List Service) → service_names (a ++ b) ≡ service_names a ++ service_names b
names-append [] b = refl
names-append (s ∷ a) b = ap (λ ns. s.name ∷ ns) (names-append a b)

pub all_mono :
    (p q : String → Bool) (names : List String)
    → ((n : String) → p n ≡ true → q n ≡ true)
    → all p names ≡ true
    → all q names ≡ true
all_mono p q [] h k = k
all_mono p q (n ∷ names) h k = ground (arith, h n, all_mono p q names h)

pub deps_before_mono :
    (seen more : List String) (services : List Service)
    → ((n : String) → elem n seen ≡ true → elem n more ≡ true)
    → deps_before seen services ≡ true
    → deps_before more services ≡ true
deps_before_mono seen more [] h k = k
deps_before_mono seen more (s ∷ services) h k = ground (
  arith,
  all_mono (λ d. elem d seen) (λ d. elem d more) s.dependency_names h (ground arith),
  deps_before_mono (s.name ∷ seen) (s.name ∷ more) services (λ n m. ground (arith, h n, m))
      (ground arith),
)

deps_before-append :
    (seen : List String) (a b : List Service)
    → deps_before seen a ≡ true
    → deps_before (service_names a ++ seen) b ≡ true
    → deps_before seen (a ++ b) ≡ true
deps_before-append seen [] b h k = k
deps_before-append seen (s ∷ a) b h k = ground (
  arith,
  deps_before-append (s.name ∷ seen) a b (ground arith) (
      deps_before_mono (s.name ∷ (service_names a ++ seen)) (service_names a ++ s.name ∷ seen) b
        (λ n m. ground (
          arith,
          elem-append n (service_names a) (s.name ∷ seen),
          elem-append n (service_names a) seen,
          m,
        ))
        k),
)

distinct-append_one :
    (n : String) (names : List String)
    → are_distinct names ≡ true
    → elem n names ≡ false
    → are_distinct (names ++ n ∷ []) ≡ true
distinct-append_one n [] h k = refl
distinct-append_one n (m ∷ names) h k = ground (
  arith,
  elem-append m names (n ∷ []),
  string_eq.beq_iff n m,
  string_eq.beq_iff m n,
  distinct-append_one n names,
)

pub all_of-elem :
    (p : String → Bool) (names : List String)
    → ((n : String) → elem n names ≡ true → p n ≡ true)
    → all p names ≡ true
all_of-elem p [] h = refl
all_of-elem p (n ∷ names) h =
    ground (arith, h n, eq_refl n, all_of-elem p names (λ m k. h m (ground (arith, k))))

-- `result` has the names, and each service after those that it depends on
abbrev pub Covers : List String → List Service → Type 0
Covers names result = (n : String) → elem n names ≡ true → elem n (service_names result) ≡ true

abbrev pub IsClosed : List Service → Type 0
IsClosed result = deps_before [] result ≡ true

abbrev pub Once : List Service → Type 0
Once result = are_distinct (service_names result) ≡ true

pub IsClosed-append :
    (a b : List Service) → IsClosed a → deps_before (service_names a) b ≡ true → IsClosed (a ++ b)
IsClosed-append a b h k = deps_before-append [] a b h (
    deps_before_mono (service_names a) (service_names a ++ []) b
      (λ n m. ground (arith, elem-append n (service_names a) [], m)) k)

pub append_unique-Closed :
    (uniques services : List Service)
    → IsClosed uniques
    → Once uniques
    → deps_before (service_names uniques) services ≡ true
    → IsClosed (append_unique uniques services)
      × Once (append_unique uniques services)
      × Covers (service_names uniques ++ service_names services) (append_unique uniques services)
unfolding append_unique
append_unique-Closed uniques [] h d k =
    (h, d, λ n m. ground (arith, elem-append n (service_names uniques) [], m))
append_unique-Closed uniques (s ∷ services) h d k =
    elim (Bool-cases (elem s.name (service_names uniques))) [
      | inl old ↦
          let (closed, once, covers) = append_unique-Closed uniques services h d (
            deps_before_mono (s.name ∷ service_names uniques) (service_names uniques) services
              (λ n m. ground (arith, string_eq.beq_iff s.name n, old, m)) (ground (arith, k))) in
          rw old (
            closed,
            once,
            λ n m. covers n (
                ground (
                  arith,
                  m,
                  old,
                  string_eq.beq_iff s.name n,
                  elem-append n (service_names uniques) (service_names services),
                  elem-append n (service_names uniques) (s.name ∷ service_names services),
                )),
          )
      | inr new ↦
          let same = names-append uniques (s ∷ []) in
          let (closed, once, covers) =
            append_unique-Closed (uniques ++ s ∷ []) services
              (IsClosed-append uniques (s ∷ []) h (ground (arith, k)))
              (rw same (distinct-append_one s.name (service_names uniques) d new))
              (rw same (
                deps_before_mono (s.name ∷ service_names uniques)
                  (service_names uniques ++ s.name ∷ []) services
                  (λ n m. ground (arith, m, elem-append n (service_names uniques) (s.name ∷ [])))
                  (ground (arith, k)))) in
          rw new (
            closed,
            once,
            λ n m. covers n (
                rw same (
                  ground (
                    arith,
                    m,
                    elem-append n (service_names uniques ++ s.name ∷ []) (service_names services),
                    elem-append n (service_names uniques) (s.name ∷ []),
                    elem-append n (service_names uniques) (s.name ∷ service_names services),
                  ))),
          )
    ]
