-- ===== src/Project/Build/Samples.antt =====
-- A project of two services of the configuration.
use docke_compose_customize.Prelude.{String, ◌≡◌, refl, none, some, true, List, [], ◌∷◌}
use docke_compose_customize.Config.Types.{v2_0}
use docke_compose_customize.Config.SortServices.{ServiceDict}
use docke_compose_customize.Config.SortServices.Samples.{web, db, cache, sort_three}
use docke_compose_customize.Prelude
use docke_compose_customize.Config.SortServices
use docke_compose_customize.Project.Build.{ServiceConfig, Surroundings, from_config}
use docke_compose_customize.Project.Build.Fine.{Fine}
use docke_compose_customize.Project.Build.Order.{Built}
use docke_compose_customize.Project.Build.Sorted.{all_resolved, from_config-sorted}

abbrev configured : ServiceDict → ServiceConfig String
configured d = record { dict = d; networks = none; volumes = [] }

abbrev around : Surroundings String
around = record {
  name = "app";
  version = some v2_0;
  find = λ name. none;
  empty = "";
  networks =
      (
        "default",
        record {
          project = "app";
          name = "default";
          external_name = none;
          driver = none;
          driver_opts = none;
        },
      )
      ∷ [];
  volumes = [];
}

abbrev three : List (ServiceConfig String)
three = configured db ∷ configured web ∷ configured cache ∷ []

three_resolved : all_resolved (λ name. none) ("db" ∷ "web" ∷ "cache" ∷ []) three ≡ true
unfolding SortServices.get_service_names SortServices.get_service_name_from_network_mode
    Prelude.split Prelude.split_once
three_resolved = refl

from_config-sorted_example :
    Fine (Built (λ s. none) (λ s. []) ("db" ∷ "web" ∷ "cache" ∷ [])) (from_config around three)
from_config-sorted_example =
    from_config-sorted (λ s. none) (λ s. []) around (cache ∷ web ∷ db ∷ []) three sort_three refl
      three_resolved
