-- ===== src/Project.antt =====
-- compose/project.py: the services of a project and the plans for all of them.
-- A service is a record of what the project reads of it.
pub mod Services
pub mod Closure
pub mod Dependencies
pub mod Needs
pub mod Ranks
pub mod Build
pub mod Plans
pub mod Samples
use docke_compose_customize.Prelude.{
  ℕ, String, Bool, true, false, not, ◌&&◌, ◌||◌, Option, none, some, List, [], ◌∷◌, ◌++◌, map, ◌==◌,
  string_eq, filter, any, elem, is_empty, concat, if◌then◌else◌,
}
use docke_compose_customize.Result.{Result, ok, err, no_such_service}
use docke_compose_customize.Container.{
  Container, get, put, label_service, label_project, label_one_off,
}
use docke_compose_customize.Service.{
  ConvergenceStrategy, always, allows_recreate, Action, create, recreate, ConvergencePlan,
  convergence_plan,
}

pub record Service : Type 0 where
  pub name : String
  pub dependency_names : List String
  -- `none` where the image is missing
  pub config_hash : Option String
  pub containers : List Container

pub data OneOffFilter : Type 0 where
  include exclude only : OneOffFilter

unfoldable pub update_labels : OneOffFilter → List String → List String
update_labels include labels = labels
update_labels exclude labels = labels ++ concat label_one_off "=False" ∷ []
update_labels only labels = labels ++ concat label_one_off "=True" ∷ []

unfoldable pub labels : String → OneOffFilter → List String
unfolding update_labels
labels name one_off = update_labels one_off (concat label_project (concat "=" name) ∷ [])

abbrev pub service_names : List Service → List String
service_names services = map (λ (s : Service). s.name) services

unfoldable pub get_service : List Service → String → Result Service
get_service [] name = err (no_such_service name)
get_service (s ∷ services) name =
    let rest = get_service services name in if s.name == name then ok s else rest

-- the loop of `validate_service_names`
unfoldable pub validate_service_names : List Service → List String → Result (Unit {0})
validate_service_names services [] = ok tt
validate_service_names services (name ∷ names) =
    let rest = validate_service_names services names in
    if elem name (service_names services) then rest else err (no_such_service name)

abbrev pub is_in : List String → Option String → Bool
is_in names none = false
is_in names (some name) = elem name names

-- the containers with the project's labels, of the services that are asked for
unfoldable pub containers_of : List String → List Container → List Container
containers_of names labeled =
    filter (λ (c : Container). is_in names (get label_service c.labels)) labeled

unfoldable pub find_orphans : List Service → List Container → List Container
find_orphans services labeled =
    filter (λ (c : Container). not (is_in (service_names services) (get label_service c.labels)))
      labeled

-- `action in ('recreate', 'create')`
abbrev pub is_update : Action → Bool
is_update create = true
is_update recreate = true
is_update _ = false

abbrev pub plan_updates : Option ConvergencePlan → Bool
plan_updates none = false
plan_updates (some p) = is_update p.action

-- `name in plans and plans[name].action in ('recreate', 'create')`
abbrev pub updated : List (String × ConvergencePlan) → String → Bool
updated plans name = plan_updates (get name plans)

abbrev pub updated_dependencies : List (String × ConvergencePlan) → Service → Bool
updated_dependencies plans s = any (updated plans) s.dependency_names

-- the body of the loop of `_get_convergence_plans`
unfoldable pub plan_of :
    ConvergenceStrategy → List (String × ConvergencePlan) → Service → ConvergencePlan
plan_of strategy plans s =
    if updated_dependencies plans s && allows_recreate strategy
    then convergence_plan s.config_hash s.containers always
    else convergence_plan s.config_hash s.containers strategy

unfoldable pub plan_services :
    ConvergenceStrategy
    → List (String × ConvergencePlan)
    → List Service
    → List (String × ConvergencePlan)
plan_services strategy plans [] = plans
plan_services strategy plans (s ∷ services) =
    plan_services strategy (put s.name (plan_of strategy plans s) plans) services

unfoldable pub get_convergence_plans :
    List Service → ConvergenceStrategy → List (String × ConvergencePlan)
unfolding plan_services
get_convergence_plans services strategy = plan_services strategy [] services
