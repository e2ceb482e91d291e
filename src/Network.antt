-- ===== src/Network.antt =====
-- compose/network.py: the networks that a service joins.
-- `Definition` is what the configuration says of a service in a network, and `empty` is `{}`.
pub mod Laws
pub mod Managed
pub mod Owned
pub mod Samples
use docke_compose_customize.Prelude.{
  String, Bool, true, false, Option, none, some, List, [], ◌∷◌, string_eq, map, is_empty, join,
  if◌then◌else◌,
}
use docke_compose_customize.Result.{Error, Result, ok, err, undefined_network}
use docke_compose_customize.Container.{get, put, update}

pub record Network : Type 0 where
  pub project : String
  pub name : String
  pub external_name : Option String
  pub driver : Option String
  pub driver_opts : Option (List (String × String))

abbrev name_or : Option String → String → String
name_or none default = default
name_or (some s) default = if is_empty s then default else s

unfoldable pub network_name : Network → String
network_name n = name_or n.external_name (join "_" (n.project ∷ n.name ∷ []))

-- The keys of a service dictionary that are read.
pub record ServiceNetworks (Definition : Type 0) : Type 0 where
  pub name : String
  pub has_network_mode : Bool
  pub networks : Option (List (String × Option Definition))

module _ {Definition : Type 0} (empty : Definition) where
  abbrev filled : String × Option Definition → String × Definition
  filled (net, none) = (net, empty)
  filled (net, some config) = (net, config)

  abbrev networks_or :
      Option (List (String × Option Definition)) → List (String × Option Definition)
  networks_or none = ("default", none) ∷ []
  networks_or (some networks) = networks

  unfoldable pub get_network_defs_for_service :
      ServiceNetworks Definition → List (String × Definition)
  get_network_defs_for_service service_dict =
      if service_dict.has_network_mode
      then []
      else update [] (map filled (networks_or service_dict.networks))

  abbrev pub add_network :
      String
      → String × Definition
      → Option Network
      → List (String × Definition)
      → Result (List (String × Definition))
  add_network service (name, netdef) none networks = err (undefined_network service name)
  add_network service (name, netdef) (some network) networks =
      ok (put (network_name network) netdef networks)

  abbrev pub proceed :
      (List (String × Definition) → Result (List (String × Definition)))
      → Result (List (String × Definition))
      → Result (List (String × Definition))
  proceed rest (ok networks) = rest networks
  proceed rest (err e) = err e

  -- the loop of `get_networks`
  unfoldable pub get_each :
      String
      → List (String × Network)
      → List (String × Definition)
      → List (String × Definition)
      → Result (List (String × Definition))
  get_each service definitions [] networks = ok networks
  get_each service definitions (d ∷ defs) networks =
      proceed (get_each service definitions defs)
        (add_network service d (get d.0 definitions) networks)

  unfoldable pub get_networks :
      ServiceNetworks Definition → List (String × Network) → Result (List (String × Definition))
  get_networks service_dict network_definitions =
      get_each service_dict.name network_definitions (get_network_defs_for_service service_dict) []
