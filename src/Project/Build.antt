-- ===== src/Project/Build.antt =====
-- compose/project.py: from_config, which makes the services of a project in the order of the
-- configuration. A service finds those that it refers to among the services made before it.
pub mod Fine
pub mod References
pub mod Order
pub mod Sorted
pub mod Samples
use docke_compose_customize.Prelude.{
  String, Bool, true, false, not, Option, none, some, List, [], ◌∷◌, ◌++◌, map, ◌==◌, string_eq,
  is_empty, split_once, if◌then◌else◌,
}
use docke_compose_customize.Result.{
  Error, Result, ok, err, no_such_service, invalid_link, no_network_container, invalid_volumes_from,
  ◌>>=◌, traverse, for_each,
}
use docke_compose_customize.Container.{Container}
use docke_compose_customize.Config.Types.{Version, v1, v2_0, VolumeFromSpec}
use docke_compose_customize.Config.Volumes.{VolumeSpec}
use docke_compose_customize.Config.SortServices.{
  ServiceDict, get_service_name_from_network_mode, get_container_name_from_network_mode,
}
use docke_compose_customize.Network.{Network, get_networks}
use docke_compose_customize.Volume.{Volume}
use docke_compose_customize.Volume.Namespace.{namespace_spec}
use docke_compose_customize.Service.Modes.{
  NetworkMode, network_mode, container_network_mode, service_network_mode, VolumeFrom,
  service_source, container_source, ServiceObject,
}

-- a service of the configuration: the keys that order the services, and two others
pub record ServiceConfig (Definition : Type 0) : Type 0 where
  pub dict : ServiceDict
  pub networks : Option (List (String × Option Definition))
  pub volumes : List VolumeSpec

-- the project and what surrounds it; `find` is Container.from_id, without a container where the
-- client raises an APIError
pub record Surroundings (Definition : Type 0) : Type 0 where
  pub name : String
  pub version : Option Version
  pub find : String → Option Container
  pub empty : Definition
  pub networks : List (String × Network)
  pub volumes : List (String × Volume)

abbrev pub is_v1 : Option Version → Bool
is_v1 (some v1) = true
is_v1 v = false

-- `config_data.version and config_data.version != V1`
abbrev pub uses_networking : Option Version → Bool
uses_networking none = false
uses_networking v = not (is_v1 v)

abbrev pub is_present : Option String → Bool
is_present none = false
is_present (some s) = not (is_empty s)

abbrev pub is_some : Option String → Bool
is_some none = false
is_some (some s) = true

abbrev pub link_of : String → Option (String × String) → String × Option String
link_of link none = (link, none)
link_of link (some (service_name, link_name)) = (service_name, some link_name)

-- `except NoSuchService`
abbrev pub linked :
    String → String × Option String → Result String → Result (String × Option String)
linked name (target, alias) (ok s) = ok (s, alias)
linked name (target, alias) (err e) = err (invalid_link name target)

abbrev pub container_mode : String → String → Option Container → Result NetworkMode
container_mode name dep none = err (no_network_container name dep)
container_mode name dep (some c) = ok (container_network_mode c)

abbrev pub first_network : List String → NetworkMode
first_network [] = network_mode (some "none")
first_network (n ∷ networks) = network_mode (some n)

abbrev pub text_of : Option String → String
text_of none = ""
text_of (some s) = s

abbrev pub from_container : String → VolumeFromSpec → Option Container → Result VolumeFrom
from_container name spec none = err (invalid_volumes_from name spec.source)
from_container name spec (some c) = ok (record { source = container_source c; mode = spec.mode })

-- `except NoSuchService: pass` goes on to the test for a container, which fails then
abbrev pub from_service : String → VolumeFromSpec → Result String → Result VolumeFrom
from_service name spec (err e) = err (invalid_volumes_from name spec.source)
from_service name spec (ok s) = ok (record { source = service_source s; mode = spec.mode })

module _ {Definition : Type 0} where
  -- `get_service` on the services made so far: the name under which it is found
  unfoldable pub find_service : List (ServiceObject Definition) → String → Result String
  find_service [] name = err (no_such_service name)
  find_service (s ∷ services) name =
      let rest = find_service services name in if s.name == name then ok name else rest

  unfoldable pub get_links :
      List (ServiceObject Definition)
      → String
      → List String
      → Result (List (String × Option String))
  get_links services name links =
      traverse
        (λ link.
          let found = link_of link (split_once b':' link) in
          linked name found (find_service services found.0))
        links

  unfoldable pub get_network_mode :
      (String → Option Container)
      → List (ServiceObject Definition)
      → Bool
      → String
      → Option String
      → List String
      → Result NetworkMode
  get_network_mode find services use_networking name mode networks =
      if not (is_present mode)
      then ok (if use_networking then first_network networks else network_mode none)
      else if is_present (get_service_name_from_network_mode mode)
      then (find_service services (text_of (get_service_name_from_network_mode mode)) >>= λ s.
          ok (service_network_mode s))
      else if is_present (get_container_name_from_network_mode mode)
      then container_mode name (text_of (get_container_name_from_network_mode mode))
          (find (text_of (get_container_name_from_network_mode mode)))
      else ok (network_mode mode)

  unfoldable pub build_volume_from :
      (String → Option Container)
      → List (ServiceObject Definition)
      → String
      → VolumeFromSpec
      → Result VolumeFrom
  build_volume_from find services name spec =
      if spec.type == "service"
      then from_service name spec (find_service services spec.source)
      else if spec.type == "container"
      then from_container name spec (find spec.source)
      else err (invalid_volumes_from name spec.source)

  -- `list(service_networks.keys())`
  abbrev pub keys : List (String × Definition) → List String
  keys networks = map (λ (d : String × Definition). d.0) networks

  -- the body of the loop of from_config
  unfoldable pub build_service :
      Surroundings Definition
      → List (ServiceObject Definition)
      → ServiceConfig Definition
      → Result (ServiceObject Definition)
  build_service around services c = do
    networks ←
        (if uses_networking around.version
          then get_networks around.empty
              (record {
                name = c.dict.name;
                has_network_mode = is_some c.dict.network_mode;
                networks = c.networks;
              })
              around.networks
          else ok [])
    links ← get_links services c.dict.name c.dict.links
    mode ←
        get_network_mode around.find services (uses_networking around.version) c.dict.name
          c.dict.network_mode (keys networks)
    volumes_from ← traverse (build_volume_from around.find services c.dict.name) c.dict.volumes_from
    volumes ←
        (if is_v1 around.version
          then ok c.volumes
          else traverse (namespace_spec around.volumes) c.volumes)
    ok (record {
      name = c.dict.name;
      project = around.name;
      use_networking = uses_networking around.version;
      links = links;
      volumes_from = volumes_from;
      network_mode = mode;
      networks = networks;
      depends_on = c.dict.depends_on;
      volumes = volumes;
    })

  unfoldable pub from_config :
      Surroundings Definition
      → List (ServiceConfig Definition)
      → Result (List (ServiceObject Definition))
  from_config around services =
      for_each (λ c made. build_service around made c >>= λ s. ok (made ++ s ∷ [])) services []
