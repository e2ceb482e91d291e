-- ===== src/Config/Validation/Samples.antt =====
-- A service that passes validation.
use docke_compose_customize.Prelude.{
  ◌≡◌, refl, true, false, not, ◌||◌, none, some, String, [], ◌∷◌, all, elem, string_eq,
}
use docke_compose_customize.Prelude
use docke_compose_customize.Result.{ok}
use docke_compose_customize.Config.SortServices
use docke_compose_customize.Config.SortServices.Samples.{web}
use docke_compose_customize.Config.Validation.{
  Ulimit, pos, soft_hard, Checked, is_allowed, is_given, has_uppercase, validate_service,
  validate_ulimits, validate_network_mode, validate_depends_on, validate_links,
}
use docke_compose_customize.Config.Validation.Resolved.{validate_service-IsKnown}
use docke_compose_customize.Config.SortServices.{
  get_service_names, get_service_name_from_network_mode,
}
use docke_compose_customize.Service.Modes.{present}

abbrev checked : Checked
checked = record {
  dict = record web { network_mode = some "service:db"; depends_on = "db" ∷ [] };
  has_networks = false;
  image = some "nginx";
  ulimits = ("nofile", soft_hard (pos 10) (pos 20)) ∷ [];
}

checked_passes : validate_service (λ c. ok tt) (λ c. ok tt) ("db" ∷ "web" ∷ []) checked ≡ ok tt
unfolding validate_service validate_ulimits validate_network_mode validate_depends_on validate_links
    Prelude.split Prelude.split_once SortServices.get_service_name_from_network_mode
checked_passes = refl

validate_service-IsKnown_example :
    (all (λ n. elem n ("db" ∷ "web" ∷ [])) (get_service_names checked.dict.links) ≡ true)
    × (all
          (λ n. elem n ("db" ∷ "web" ∷ []))
          (present (get_service_name_from_network_mode checked.dict.network_mode))
        ≡ true)
    × (all (λ n. elem n ("db" ∷ "web" ∷ [])) checked.dict.depends_on ≡ true)
    × ((not (is_given checked.dict.network_mode) || not checked.has_networks) ≡ true)
    × (all (λ (u : String × Ulimit). is_allowed u.1) checked.ulimits ≡ true)
    × ((is_given checked.image || not (has_uppercase checked.dict.name)) ≡ true)
validate_service-IsKnown_example =
    validate_service-IsKnown (λ c. ok tt) (λ c. ok tt) ("db" ∷ "web" ∷ []) checked checked_passes
