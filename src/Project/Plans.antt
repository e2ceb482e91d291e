-- ===== src/Project/Plans.antt =====
-- What the plans of a project owe to the order of its services.
use docke_compose_customize.Prelude.{
  String, ◌≡◌, refl, ap, sym, ◌∙◌, Bool, true, false, Option, some, List, [], ◌∷◌, ◌++◌, any, elem,
  All, ◌==◌, string_eq, eq_refl, arith, Bool-cases, inl, inr,
}
use docke_compose_customize.Container.{Container, get, put}
use docke_compose_customize.Service.{
  ConvergenceStrategy, always, allows_recreate, ConvergencePlan, convergence_plan,
}
use docke_compose_customize.Project.{
  Service, service_names, is_update, plan_updates, updated, updated_dependencies, plan_of,
  plan_services, get_convergence_plans,
}

-- The names differ, and no service depends on itself or on a later one.
abbrev pub DependenciesFirst : List Service → Type 0
DependenciesFirst [] = Unit
DependenciesFirst (s ∷ services) =
    (elem s.name (service_names services) ≡ false)
    × (any (λ d. elem d (service_names (s ∷ services))) s.dependency_names ≡ false)
    × DependenciesFirst services

get-put_same :
    (key : String) (v : ConvergencePlan) (d : List (String × ConvergencePlan))
    → get key (put key v d) ≡ some v
get-put_same key v [] = ground (arith, eq_refl key)
get-put_same key v ((k, w) ∷ rest) = ground (arith, eq_refl key, get-put_same key v rest)

get-put_other :
    (key j : String) (v : ConvergencePlan) (d : List (String × ConvergencePlan))
    → (j == key) ≡ false
    → get key (put j v d) ≡ get key d
get-put_other key j v [] h = ground (arith, h)
get-put_other key j v ((k, w) ∷ rest) h =
    ground (arith, h, string_eq.beq_iff k j, get-put_other key j v rest h)

-- A plan stands where no later service has the name.
get-plan_services :
    (strategy : ConvergenceStrategy) (plans : List (String × ConvergencePlan))
    (services : List Service) (name : String)
    → elem name (service_names services) ≡ false
    → get name (plan_services strategy plans services) ≡ get name plans
unfolding plan_services
get-plan_services strategy plans [] name h = refl
get-plan_services strategy plans (s ∷ services) name h =
    let p = plan_of strategy plans s in
    get-plan_services strategy (put s.name p plans) services name (ground arith)
    ∙ get-put_other name s.name p plans (ground arith)

always-updates :
    (hash : Option String) (containers : List Container)
    → is_update (convergence_plan hash containers always).action ≡ true
unfolding convergence_plan
always-updates hash [] = refl
always-updates hash (c ∷ cs) = refl

plan_of-updates :
    (strategy : ConvergenceStrategy) (plans : List (String × ConvergencePlan)) (s : Service)
    → allows_recreate strategy ≡ true
    → updated_dependencies plans s ≡ true
    → is_update (plan_of strategy plans s).action ≡ true
unfolding plan_of
plan_of-updates strategy plans s h k = rw h (rw k (always-updates s.config_hash s.containers))

any-elem :
    (p : String → Bool) (names : List String) (name : String)
    → elem name names ≡ true
    → p name ≡ true
    → any p names ≡ true
any-elem p [] name h k = absurd (ground arith)
any-elem p (x ∷ names) name h k = elim (Bool-cases (x == name)) [
  | inl same ↦ rw ((string_eq.beq_iff x name).0 same) (rw k refl)
  | inr other ↦ ground (arith, any-elem p names name (ground arith) k)
]

abbrev Follows : List (String × ConvergencePlan) → Service → Type 0
Follows plans s =
    (d : String)
    → elem d s.dependency_names ≡ true
    → updated plans d ≡ true
    → updated plans s.name ≡ true

later :
    (s : Service) (services : List Service) (d : String)
    → any (λ n. elem n (service_names (s ∷ services))) s.dependency_names ≡ false
    → elem d s.dependency_names ≡ true
    → elem d (service_names (s ∷ services)) ≡ false
later s services d h k = elim (Bool-cases (elem d (service_names (s ∷ services)))) [
  | inl found ↦ absurd (
      ground
        (arith, any-elem (λ n. elem n (service_names (s ∷ services))) s.dependency_names d k found))
  | inr absent ↦ absent
]

plan_services-Follows :
    (strategy : ConvergenceStrategy) (plans : List (String × ConvergencePlan))
    (services : List Service)
    → allows_recreate strategy ≡ true
    → DependenciesFirst services
    → All (Follows (plan_services strategy plans services)) services
unfolding plan_services
plan_services-Follows strategy plans [] h order = tt
plan_services-Follows strategy plans (s ∷ services) h order =
    let p = plan_of strategy plans s in
    let plans' = put s.name p plans in
    let own =
      get-plan_services strategy plans' services s.name order.0 ∙ get-put_same s.name p plans in
    (
      λ d depends changes.
          let kept =
            get-plan_services strategy plans (s ∷ services) d
              (later s services d order.1 depends) in
          let changed =
            any-elem (updated plans) s.dependency_names d depends
              (sym (ap plan_updates kept) ∙ changes) in
          ap plan_updates own ∙ plan_of-updates strategy plans s h changed,
      plan_services-Follows strategy (put s.name p plans) services h order.2,
    )

All-middle :
    (P : Service → Type 0) (before after : List Service) (s : Service)
    → All P (before ++ s ∷ after)
    → P s
All-middle P [] after s h = h.0
All-middle P (x ∷ before) after s h = All-middle P before after s h.1

-- Where containers may be recreated and the services are in dependency order, a service `s` is
-- recreated or created whenever one that it depends on is.
pub get_convergence_plans-updated :
    (before after : List Service) (s : Service) (strategy : ConvergenceStrategy) (d : String)
    → allows_recreate strategy ≡ true
    → DependenciesFirst (before ++ s ∷ after)
    → elem d s.dependency_names ≡ true
    → updated (get_convergence_plans (before ++ s ∷ after) strategy) d ≡ true
    → updated (get_convergence_plans (before ++ s ∷ after) strategy) s.name ≡ true
unfolding get_convergence_plans
get_convergence_plans-updated before after s strategy d h order =
    let services = before ++ s ∷ after in
    All-middle (Follows (plan_services strategy [] services)) before after s
      (plan_services-Follows strategy [] services h order) d
