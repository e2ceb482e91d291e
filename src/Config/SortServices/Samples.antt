-- ===== src/Config/SortServices/Samples.antt =====
-- Small configurations, how they are sorted, and the theorems at them.
use docke_compose_customize.Prelude.{
  ℕ, String, ◌≡◌, ◌≢◌, refl, true, Option, none, some, List, [], ◌∷◌, all, all-elem, ltb, ltb→lt,
  ◌==◌, string_eq, if◌then◌else◌,
}
use docke_compose_customize.Prelude
use docke_compose_customize.Result.{Returns, ok, err, circular_dependency, self_depends, self_mount}
use docke_compose_customize.Config.SortServices.Errors.{Sorts}
use docke_compose_customize.Config.SortServices.{
  ServiceDict, sort_service_dicts, visit_all, visit, cycle_error, get_service_dependents,
  depends_on_name, dict_eq,
}
use docke_compose_customize.Config.SortServices
use docke_compose_customize.Config.SortServices.Order.{IsOrderOf, sort_service_dicts_lem}
use docke_compose_customize.Config.SortServices.Acyclic.{IsRanked, sort_service_dicts-Returns}
use docke_compose_customize.Config.SortServices.SelfMount.{sort-ne-self_mount}

abbrev pub service : String → List String → List String → ServiceDict
service name links depends_on = record {
  name = name;
  links = links;
  volumes_from = [];
  network_mode = none;
  depends_on = depends_on;
}

abbrev pub web : ServiceDict
web = service "web" ("db:database" ∷ []) []

abbrev pub db : ServiceDict
db = service "db" [] []

abbrev pub cache : ServiceDict
cache = record (service "cache" [] []) { network_mode = some "service:web" }

abbrev pub mounts_itself : ServiceDict
mounts_itself = record (service "data" [] []) {
  volumes_from = record { source = "data"; mode = "rw"; type = "service" } ∷ [];
}

sorting : Unit {0}
unfolding sort_service_dicts visit_all visit cycle_error get_service_dependents depends_on_name
    dict_eq SortServices.get_service_names SortServices.get_service_names_from_volumes_from
    SortServices.get_service_name_from_network_mode SortServices.spec_eq Prelude.split
    Prelude.split_once
sorting = tt

pub sort_three : sort_service_dicts (cache ∷ web ∷ db ∷ []) ≡ ok (db ∷ web ∷ cache ∷ [])
unfolding sorting
sort_three = refl

sort_self : sort_service_dicts (service "web" [] ("web" ∷ []) ∷ []) ≡ err (self_depends "web")
unfolding sorting
sort_self = refl

sort_mounts_itself :
    sort_service_dicts (mounts_itself ∷ []) ≡ err (circular_dependency ("data" ∷ []))
unfolding sorting
sort_mounts_itself = refl

abbrev rank_of : String → ℕ
rank_of name = if name == "db" then 0 else if name == "web" then 1 else 2

abbrev three : List ServiceDict
three = cache ∷ web ∷ db ∷ []

ranked_check :
    all
      (λ n. all (λ m. ltb (rank_of n.name) (rank_of m.name)) (get_service_dependents n three))
      three
    ≡ true
unfolding sorting
ranked_check = refl

three-IsRanked : IsRanked rank_of three
three-IsRanked n m h k =
    let inner =
      all-elem
        (λ n. all (λ m. ltb (rank_of n.name) (rank_of m.name)) (get_service_dependents n three))
        three n ranked_check h in
    ltb→lt _ _ (
      all-elem (λ (m : ServiceDict). ltb (rank_of n.name) (rank_of m.name))
        (get_service_dependents n three) m inner k)

sort_service_dicts_example : Sorts (IsOrderOf three) (sort_service_dicts three)
sort_service_dicts_example = sort_service_dicts_lem three

sort_service_dicts-Returns_example : Returns (IsOrderOf three) (sort_service_dicts three)
sort_service_dicts-Returns_example = sort_service_dicts-Returns rank_of three three-IsRanked

sort-ne-self_mount_example : sort_service_dicts (mounts_itself ∷ []) ≢ err (self_mount "data")
sort-ne-self_mount_example = sort-ne-self_mount (mounts_itself ∷ []) "data"
