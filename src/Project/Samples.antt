-- ===== src/Project/Samples.antt =====
-- A project of two services to evaluate the model on.
use docke_compose_customize.Prelude.{
  ◌≡◌, refl, true, none, [], ◌∷◌, String, ℕ, All, ◌==◌, string_eq, if◌then◌else◌,
}
use docke_compose_customize.Service.{changed, allows_recreate, create, convergence_plan, plan}
use docke_compose_customize.Result.{Returns}
use docke_compose_customize.Project.{
  Service, plan_of, plan_services, get_convergence_plans, updated,
}
use docke_compose_customize.Project.Plans.{get_convergence_plans-updated}
use docke_compose_customize.Project.Services.{wanted, get_services}
use docke_compose_customize.Project.Needs.{Needs}
use docke_compose_customize.Project.Ranks.{Ordered, get_services-Ordered}

abbrev db : Service
db = record { name = "db"; dependency_names = []; config_hash = none; containers = [] }

abbrev web : Service
web = record { name = "web"; dependency_names = "db" ∷ []; config_hash = none; containers = [] }

plans_two :
    get_convergence_plans (db ∷ web ∷ []) changed
    ≡ ("db", plan create []) ∷ ("web", plan create []) ∷ []
unfolding get_convergence_plans plan_services plan_of convergence_plan allows_recreate
plans_two = refl

changed_recreates : allows_recreate changed ≡ true
unfolding allows_recreate
changed_recreates = refl

web_changes : updated (get_convergence_plans (db ∷ web ∷ []) changed) "db" ≡ true
web_changes = rw plans_two refl

get_convergence_plans-updated_example :
    updated (get_convergence_plans (db ∷ web ∷ []) changed) "web" ≡ true
get_convergence_plans-updated_example =
    get_convergence_plans-updated (db ∷ []) [] web changed "db" changed_recreates
      (refl, refl, (refl, refl, tt)) refl web_changes

abbrev depth : String → ℕ
depth name = if name == "web" then 1 else 0

get_services-Ordered_example :
    Returns
      (λ result.
        Ordered (wanted (web ∷ db ∷ []) ("web" ∷ [])) result
        × All (Needs (web ∷ db ∷ []) (wanted (web ∷ db ∷ []) ("web" ∷ []))) result)
      (get_services 2 (web ∷ db ∷ []) ("web" ∷ []) true)
get_services-Ordered_example =
    get_services-Ordered (web ∷ db ∷ []) depth (refl, (refl, tt)) 1 ("web" ∷ []) refl
