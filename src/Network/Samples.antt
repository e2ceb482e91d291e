-- ===== src/Network/Samples.antt =====
-- A service in two networks to evaluate the model on.
use docke_compose_customize.Prelude.{
  ℕ, String, ◌≡◌, refl, ◌⊎◌, true, false, none, some, List, [], ◌∷◌, All, all,
}
use docke_compose_customize.Result.{ok, err, undefined_network}
use docke_compose_customize.Container.{get}
use docke_compose_customize.Network.{
  Network, network_name, ServiceNetworks, get_network_defs_for_service, get_each, get_networks,
}
use docke_compose_customize.Service.Client.{Call}
use docke_compose_customize.Service.Kept.{Made}
use docke_compose_customize.Volume.Samples.{client}
use docke_compose_customize.Network.Managed.{initialize, remove_all}
use docke_compose_customize.Network.Owned.{creates_owned, removes_owned, initialize-remove_owned}
use docke_compose_customize.Network.Laws.{has, Joined, get_networks_lem}

abbrev web : ServiceNetworks ℕ
web = record {
  name = "web";
  has_network_mode = false;
  networks = some (("front", some 1) ∷ ("back", none) ∷ []);
}

abbrev definitions : List (String × Network)
definitions =
    (
      "front",
      record {
        project = "p";
        name = "front";
        external_name = none;
        driver = none;
        driver_opts = none;
      },
    )
    ∷ (
      "back",
      record {
        project = "p";
        name = "back";
        external_name = some "shared";
        driver = none;
        driver_opts = none;
      },
    )
    ∷ []

joined_two : get_networks 0 web definitions ≡ ok (("p_front", 1) ∷ ("shared", 0) ∷ [])
unfolding get_networks get_each get_network_defs_for_service network_name
joined_two = refl

none_defined : get_networks 0 web [] ≡ err (undefined_network "web" "front")
unfolding get_networks get_each get_network_defs_for_service
none_defined = refl

get_networks_lem_example :
    ((name : String) × (has name (get_network_defs_for_service 0 web) ≡ true)
      × (get name definitions ≡ none)
      × (get_networks 0 web definitions ≡ err (undefined_network "web" name)))
    ⊎ ((joined : List (String × ℕ)) × (get_networks 0 web definitions ≡ ok joined)
        × All (Joined 0 definitions joined) (get_network_defs_for_service 0 web))
get_networks_lem_example = get_networks_lem 0 definitions web

abbrev own_network : Network
own_network = record {
  project = "p";
  name = "front";
  external_name = none;
  driver = none;
  driver_opts = none;
}

abbrev no_options : List Call → String × List (String × String)
no_options log = ("bridge", [])

initialize-remove_owned_example :
    Made
      (λ calls. all (creates_owned (own_network ∷ [])) calls ≡ true)
      []
      (initialize client no_options true (own_network ∷ []) []).0
      (initialize client no_options true (own_network ∷ []) []).1
    × Made
        (λ calls. all (removes_owned (own_network ∷ [])) calls ≡ true)
        []
        (remove_all client no_options true (own_network ∷ []) []).0
        (remove_all client no_options true (own_network ∷ []) []).1
initialize-remove_owned_example =
    initialize-remove_owned client no_options true (own_network ∷ []) []
