-- ===== src/Service/Modes.antt =====
-- compose/service.py: the network modes of a service, the services that it depends on, and what it
-- is created from. A reference to another service of the project is that service's name.
use docke_compose_customize.Prelude.{
  String, Bool, Option, none, some, List, [], ◌∷◌, ◌++◌, map, concat, is_empty, if◌then◌else◌,
}
use docke_compose_customize.Result.{Result, ok, ◌>>=◌}
use docke_compose_customize.Container.{Container}
use docke_compose_customize.Config.Volumes.{VolumeSpec}

-- NetworkMode, ContainerNetworkMode and ServiceNetworkMode
pub data NetworkMode : Type 0 where
  network_mode : Option String → NetworkMode
  container_network_mode : Container → NetworkMode
  service_network_mode : String → NetworkMode

unfoldable pub mode_id : NetworkMode → Option String
mode_id (network_mode m) = m
mode_id (container_network_mode c) = some c.id
mode_id (service_network_mode s) = some s

unfoldable pub service_name : NetworkMode → Option String
service_name (service_network_mode s) = some s
service_name m = none

abbrev pub mode_of_first : List Container → Option String
mode_of_first [] = none
mode_of_first (c ∷ containers) = some (concat "container:" c.id)

-- `containers` gives the running containers of a service
unfoldable pub mode : (String → List Container) → NetworkMode → Option String
mode containers (network_mode m) = m
mode containers (container_network_mode c) = some (concat "container:" c.id)
mode containers (service_network_mode s) = mode_of_first (containers s)

-- a specification of volumes_from whose source has been found
pub data Source : Type 0 where
  service_source : String → Source
  container_source : Container → Source

pub record VolumeFrom : Type 0 where
  pub source : Source
  pub mode : String

-- what Service is made of; `Definition` is what the configuration says of it in a network
pub record ServiceObject (Definition : Type 0) : Type 0 where
  pub name : String
  pub project : String
  pub use_networking : Bool
  pub links : List (String × Option String)
  pub volumes_from : List VolumeFrom
  pub network_mode : NetworkMode
  pub networks : List (String × Definition)
  pub depends_on : List String
  pub volumes : List VolumeSpec

-- the name of a source that is a service
abbrev pub source_name : Source → List String
source_name (service_source name) = name ∷ []
source_name (container_source c) = []

abbrev pub source_names : List VolumeFrom → List String
source_names [] = []
source_names (v ∷ volumes_from) = source_name v.source ++ source_names volumes_from

-- `[net_name] if net_name else []`
abbrev pub present : Option String → List String
present none = []
present (some name) = if is_empty name then [] else name ∷ []

module _ {Definition : Type 0} where
  abbrev pub get_linked_service_names : ServiceObject Definition → List String
  get_linked_service_names s = map (λ (link : String × Option String). link.0) s.links

  abbrev pub get_link_names : ServiceObject Definition → List (String × Option String)
  get_link_names s = s.links

  abbrev pub get_volumes_from_names : ServiceObject Definition → List String
  get_volumes_from_names s = source_names s.volumes_from

  unfoldable pub get_dependency_names : ServiceObject Definition → List String
  unfolding service_name
  get_dependency_names s =
      get_linked_service_names s
      ++ get_volumes_from_names s
      ++ present (service_name s.network_mode)
      ++ s.depends_on

abbrev pub first_container :
    (String → Result Container) → String → List Container → Result Container
first_container create s [] = create s
first_container create s (c ∷ containers) = ok c

-- `containers` gives the containers of a service, stopped ones too, and `create` a new one
abbrev pub source_container :
    (String → List Container) → (String → Result Container) → Source → Result Container
source_container containers create (service_source s) = first_container create s (containers s)
source_container containers create (container_source c) = ok c

unfoldable pub volume_from_text :
    (String → List Container) → (String → Result Container) → VolumeFrom → Result String
volume_from_text containers create v = do
  c ← source_container containers create v.source
  ok (concat c.id (concat ":" v.mode))
