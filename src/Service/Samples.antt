-- ===== src/Service/Samples.antt =====
-- Containers, plans and clients to evaluate the model on.
use docke_compose_customize.Prelude.{
  ℕ, String, ◌≡◌, ◌↔◌, ◌⊎◌, ◌<◌, ◌≤◌, ◌+◌, ◌++◌, refl, Bool, true, false, Option, none, some, List,
  [], ◌∷◌, length, map, not, filter, all, All, count, bit, elem, nat_eq, arith,
}
use docke_compose_customize.Result.{ok}
use docke_compose_customize.Container.{
  Container, get, environment, label_project, label_service, label_one_off, label_container_number,
  label_config_hash,
}
use docke_compose_customize.Service.{changed, always, recreate, noop, plan, convergence_plan}
use docke_compose_customize.Service.Convergence.{is_current, matches, noop_iff, recreate_iff}
use docke_compose_customize.Service.Client.{Daemon}
use docke_compose_customize.Service.Calls.{Post}
use docke_compose_customize.Service.Recreate.{ServiceState, recreate_container}
use docke_compose_customize.Service.Calm.{Removed, Untouched}
use docke_compose_customize.Service.Removal.{recreate_container_lem}
use docke_compose_customize.Service.Scale.{
  sorted, scale, containers_to_start, next_container_number, duplicate_containers,
}
use docke_compose_customize.Service.Scale.Balance.{scale-balance}
use docke_compose_customize.Service.Scale.Laws.{scale-fresh, count-duplicate_containers}
use docke_compose_customize.Service.Scale.Stopped.{scale-highest}
use docke_compose_customize.Service.Names.{
  ServiceNames, labels, build_container_labels, format_environment,
}
use docke_compose_customize.Service.Names.Laws.{get-build_container_labels, environment-format}

abbrev sample : String → ℕ → Bool → Container
sample id created is_running = record {
  id = id;
  name = id;
  labels = (label_config_hash, "aa") ∷ [];
  is_running = is_running;
  is_restarting = false;
  is_paused = false;
  is_ghost = false;
  exit_code = "0";
  log_driver = none;
  env = "A=b" ∷ "C" ∷ [];
  entrypoint = [];
  cmd = [];
  created = created;
}

abbrev web : Container
web = sample "web" 1 true

abbrev web2 : Container
web2 = sample "web2" 2 false

noop_iff_example :
    ((convergence_plan (some "aa") (web ∷ web2 ∷ []) changed).action ≡ noop)
    ↔ (all (is_current "aa") (web ∷ web2 ∷ []) ≡ true)
noop_iff_example = noop_iff "aa" web (web2 ∷ [])

abbrev new_hash : Option String
new_hash = some "bb"

recreate_iff_example : (convergence_plan new_hash (web ∷ []) changed ≡ plan recreate (web ∷ [])) ↔ (
    (changed ≡ always)
    ⊎ ((changed ≡ changed) × ((new_hash ≡ none) ⊎ (all (matches new_hash) (web ∷ []) ≡ false))))
recreate_iff_example = recreate_iff new_hash web [] changed

-- a client that answers every call, and creates `web2`
abbrev client : Daemon
client = record {
  fails = λ log. none;
  built = λ log. some "0a";
  driver = λ log. "local";
  created = λ log. web2;
}

abbrev service : ServiceState
service = record {
  networks = "front" ∷ [];
  container_name = "web_1";
  image_options = record { project = "p"; name = "web"; image = none; has_build = true };
  option_sources = "db" ∷ [];
  image_of = λ c. "p_web";
  connected = λ c. [];
}

recreate_container_lem_example :
    Post []
      (Untouched "web" "web_1" true)
      (λ new. Removed "web" "web_1" true new.id)
      (recreate_container client service true true web []).0
      (recreate_container client service true true web []).1
recreate_container_lem_example = recreate_container_lem client service [] true true web

abbrev created_at : Container → ℕ
created_at c = c.created

scale-balance_example :
    (1
        + length (scale created_at 4 (web ∷ []) (web ∷ web2 ∷ [])).to_start
        + length (scale created_at 4 (web ∷ []) (web ∷ web2 ∷ [])).to_create
      ≡ 4 + length (scale created_at 4 (web ∷ []) (web ∷ web2 ∷ [])).to_stop)
    × (((scale created_at 4 (web ∷ []) (web ∷ web2 ∷ [])).to_stop ≡ [])
        ⊎ (((scale created_at 4 (web ∷ []) (web ∷ web2 ∷ [])).to_start ≡ [])
            × ((scale created_at 4 (web ∷ []) (web ∷ web2 ∷ [])).to_create ≡ [])))
    × (all
          (λ (c : Container). not c.is_running)
          (scale created_at 4 (web ∷ []) (web ∷ web2 ∷ [])).to_start
        ≡ true)
    × ((rest : List Container) × ((scale created_at 4 (web ∷ []) (web ∷ web2 ∷ [])).to_start ++ rest
          ≡ sorted created_at (filter (λ (c : Container). not c.is_running) (web ∷ web2 ∷ []))))
scale-balance_example = scale-balance created_at 4 (web ∷ []) (web ∷ web2 ∷ [])

scale-created : elem 4 (scale created_at 4 (web ∷ []) (web ∷ web2 ∷ [])).to_create ≡ true
unfolding scale containers_to_start next_container_number
scale-created = refl

scale-fresh_example : 2 < 4
scale-fresh_example = scale-fresh created_at 4 (web ∷ []) (web ∷ web2 ∷ []) 2 4 refl scale-created

scale-highest_example :
    (stay : List Container) × (stay ++ (scale created_at 1 (web2 ∷ web ∷ []) []).to_stop
      ≡ sorted created_at (web2 ∷ web ∷ []))
    × All
        (λ c. All (λ d. c.created ≤ d.created) (scale created_at 1 (web2 ∷ web ∷ []) []).to_stop)
        stay
scale-highest_example = scale-highest created_at 1 (web2 ∷ web ∷ []) [] (omega arith)

count-duplicate_containers_example :
    count 1 (map created_at (duplicate_containers created_at (web ∷ web ∷ [])))
      + bit (elem 1 (map created_at (web ∷ web ∷ [])))
    ≡ 2
count-duplicate_containers_example = count-duplicate_containers created_at (web ∷ web ∷ []) 1

abbrev names : ServiceNames
names = record { project = "p"; name = "web"; custom_container_name = none }

abbrev one : ℕ → String
one n = "1"

get-build_container_labels_example :
    (made : List (String × String)) × (build_container_labels one "1.8" []
        (labels names false)
        1
        (some "aa")
      ≡ ok made)
    × (get label_project made ≡ some "p")
    × (get label_service made ≡ some "web")
    × (get label_one_off made ≡ some "False")
    × (get label_container_number made ≡ some "1")
    × (get label_config_hash made ≡ some "aa")
get-build_container_labels_example = get-build_container_labels one "1.8" [] names false 1 "aa" refl

environment_formatted : web.env ≡ format_environment (("A", some "b") ∷ ("C", none) ∷ [])
unfolding format_environment
environment_formatted = refl

environment-format_example : environment web ≡ ("A", some "b") ∷ ("C", none) ∷ []
environment-format_example =
    environment-format web (("A", some "b") ∷ ("C", none) ∷ []) environment_formatted
      (refl, (refl, tt))
