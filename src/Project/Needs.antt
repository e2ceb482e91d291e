-- ===== src/Project/Needs.antt =====
-- Which services get_services gives at most: the wanted ones and those that they need.
use mathlib.Core.List.{Memᴰ}
use docke_compose_customize.Prelude.{
  ℕ, zero, suc, String, ◌≡◌, refl, true, List, [], ◌∷◌, ◌++◌, ◌==◌, string_eq, filter, elem, All,
  subst, arith, Bool-cases, inl, inr,
}
use docke_compose_customize.Result.{Result, ok, err, traverse, ◌>>=◌}
use docke_compose_customize.Project.{Service, service_names, get_service}
use docke_compose_customize.Project.Services.{
  is_nil, append_unique, inject_deps, inject_all, selected, wanted, unique_services, get_services,
}

-- the services of the names, and those that a needed service depends on
pub data Needs (services : List Service) (names : List String) : Service → Type 0 where
  asked : (s : Service) → Memᴰ s services → elem s.name names ≡ true → Needs services names s
  dependency :
      (s d : Service)
      → Needs services names s
      → Memᴰ d services
      → elem d.name s.dependency_names ≡ true
      → Needs services names d

-- a value with the property, where there is a value
abbrev pub IfOk {ℓ} : {A : Type ℓ} → (A → Type 0) → Result A → Type 0
IfOk Q (ok a) = Q a
IfOk Q (err e) = Unit

IfOk-bind {ℓ κ} :
    {A : Type ℓ} {B : Type κ} (P : A → Type 0) (Q : B → Type 0) (r : Result A) (f : A → Result B)
    → IfOk P r
    → ((a : A) → P a → IfOk Q (f a))
    → IfOk Q (r >>= f)
IfOk-bind P Q (ok a) f h k = k a h
IfOk-bind P Q (err e) f h k = tt

All-map :
    (P Q : Service → Type 0) (ss : List Service) → ((s : Service) → P s → Q s) → All P ss → All Q ss
All-map P Q [] f h = tt
All-map P Q (s ∷ ss) f h = (f s h.0, All-map P Q ss f h.1)

All-append : (P : Service → Type 0) (a b : List Service) → All P a → All P b → All P (a ++ b)
All-append P [] b h k = k
All-append P (s ∷ a) b h k = (h.0, All-append P a b h.1 k)

append_unique-All :
    (P : Service → Type 0) (uniques services : List Service)
    → All P uniques
    → All P services
    → All P (append_unique uniques services)
unfolding append_unique
append_unique-All P uniques [] h k = h
append_unique-All P uniques (s ∷ services) h k =
    elim (Bool-cases (elem s.name (service_names uniques))) [
      | inl old ↦ rw old (append_unique-All P uniques services h k.1)
      | inr new ↦ rw new (
          append_unique-All P (uniques ++ s ∷ []) services
            (All-append P uniques (s ∷ []) h (k.0, tt)) k.1)
    ]

get_service-IfOk :
    (services : List Service) (name : String)
    → IfOk (λ (s : Service). s.name ≡ name) (get_service services name)
unfolding get_service
get_service-IfOk [] name = tt
get_service-IfOk (s ∷ services) name = elim (Bool-cases (s.name == name)) [
  | inl same ↦ rw same ((string_eq.beq_iff s.name name).0 same)
  | inr other ↦ rw other (get_service-IfOk services name)
]

traverse-IfOk :
    (services : List Service) (names : List String)
    → IfOk (λ found. service_names found ≡ names) (traverse (get_service services) names)
traverse-IfOk services [] = refl
traverse-IfOk services (n ∷ names) =
    IfOk-bind (λ (s : Service). s.name ≡ n) (λ found. service_names found ≡ n ∷ names)
      (get_service services n) (λ s. traverse (get_service services) names >>= λ ss. ok (s ∷ ss))
      (get_service-IfOk services n)
      (λ s same.
        IfOk-bind (λ found. service_names found ≡ names) (λ found. service_names found ≡ n ∷ names)
          (traverse (get_service services) names) (λ ss. ok (s ∷ ss)) (traverse-IfOk services names)
          (λ ss rest. ground (arith, same, rest)))

module _ (services : List Service) where
  -- what a needed service needs is needed
  Needs-trans :
      (names : List String) (s d : Service)
      → Needs services names s
      → Needs services s.dependency_names d
      → Needs services names d
  Needs-trans names s d h (asked _ there named) = dependency s d h there named
  Needs-trans names s d h (dependency e _ k there named) =
      dependency e d (Needs-trans names s e h k) there named

  selected-Needs :
      (names : List String) (ss : List Service)
      → ((s : Service) → Memᴰ s ss → Memᴰ s services)
      → All (Needs services names) (filter (λ (s : Service). elem s.name names) ss)
  selected-Needs names [] within = tt
  selected-Needs names (s ∷ ss) within = elim (Bool-cases (elem s.name names)) [
    | inl there ↦ rw there (
      asked s (within s (Memᴰ.head refl)) there,
      selected-Needs names ss (λ x m. within x (Memᴰ.tail m)),
    )
    | inr away ↦ rw away (selected-Needs names ss (λ x m. within x (Memᴰ.tail m)))
  ]

  module _ (rec : List String → Result (List Service)) (names : List String)
      (below : (deps : List String)
        → IfOk (All (Needs services (wanted services deps))) (rec deps)) where
    inject_deps-Needs :
        (acc : List Service) (s : Service)
        → All (Needs services names) acc
        → Needs services names s
        → IfOk (All (Needs services names)) (inject_deps rec acc s)
    inject_deps-Needs acc s h k = elim (Bool-cases (is_nil s.dependency_names)) [
      | inl none ↦ rw none (All-append (Needs services names) acc (s ∷ []) h (k, tt))
      | inr some ↦ rw some (
          IfOk-bind (All (Needs services s.dependency_names)) (All (Needs services names))
            (rec s.dependency_names) (λ deps. ok (acc ++ (deps ++ s ∷ [])))
            (subst (λ ns. IfOk (All (Needs services ns)) (rec s.dependency_names))
              (ground (arith, some)) (below s.dependency_names))
            (λ deps needed. All-append (Needs services names) acc (deps ++ s ∷ []) h (
              All-append (Needs services names) deps (s ∷ [])
                (All-map (Needs services s.dependency_names) (Needs services names) deps
                  (λ d. Needs-trans names s d k) needed)
                (k, tt))))
    ]

    inject_all-Needs :
        (acc ss : List Service)
        → All (Needs services names) acc
        → All (Needs services names) ss
        → IfOk (All (Needs services names)) (inject_all rec acc ss)
    unfolding inject_all
    inject_all-Needs acc [] h k = h
    inject_all-Needs acc (s ∷ ss) h k =
        IfOk-bind (All (Needs services names)) (All (Needs services names)) (inject_deps rec acc s)
          (λ acc'. inject_all rec acc' ss) (inject_deps-Needs acc s h k.0)
          (λ acc' first. inject_all-Needs acc' ss first k.1)

    call_Needs : IfOk (All (Needs services names)) (
        traverse (get_service services) names >>= λ unsorted.
        (inject_all rec [] (selected services unsorted) >>= λ found. unique_services found))
    call_Needs =
        IfOk-bind (λ unsorted. service_names unsorted ≡ names) (All (Needs services names))
          (traverse (get_service services) names)
          (λ unsorted.
            inject_all rec [] (selected services unsorted) >>= λ found. unique_services found)
          (traverse-IfOk services names)
          (λ unsorted same.
            IfOk-bind (All (Needs services names)) (All (Needs services names))
              (inject_all rec [] (selected services unsorted)) (λ found. unique_services found)
              (inject_all-Needs [] (selected services unsorted) tt
                (rw same (selected-Needs names services (λ s m. m))))
              (λ found needed. append_unique-All (Needs services names) [] found tt needed))

  -- Nothing else is returned, however many levels of recursion there are.
  pub get_services-Needs :
      (fuel : ℕ) (names : List String)
      → IfOk (All (Needs services (wanted services names))) (get_services fuel services names true)
  unfolding get_services
  get_services-Needs zero names = tt
  get_services-Needs (suc fuel) names =
      call_Needs (λ deps. get_services fuel services deps true) (wanted services names)
        (get_services-Needs fuel)
