-- ===== src/Network/Managed.antt =====
-- compose/network.py: creating and removing the networks of a project, and the networks of its
-- configuration. The calls of the Docker client are recorded; `answer` is what inspecting a network
-- shows of it, its driver and its options.
use docke_compose_customize.Prelude.{
  String, Bool, false, not, ◌&&◌, Option, none, some, List, [], ◌∷◌, ◌++◌, ◌==◌, string_eq,
  option_eq, all, is_empty, if◌then◌else◌,
}
use docke_compose_customize.Result.{
  Result, ok, err, external_not_found, driver_changed, options_changed,
}
use docke_compose_customize.Container.{get}
use docke_compose_customize.Network.{Network, network_name}
use docke_compose_customize.Service.Client.{Call, Daemon, M, pure, raise, ◌>>=◌, for_each, call}
use docke_compose_customize.Volume.{is_not_found}

abbrev pub truthy : Option String → Bool
truthy none = false
truthy (some s) = not (is_empty s)

unfoldable pub is_external : Network → Bool
is_external n = truthy n.external_name

-- `self.driver and data['Driver'] != self.driver`
abbrev pub driver_differs : Option String → String → Bool
driver_differs none actual = false
driver_differs (some driver) actual = not (is_empty driver) && not (actual == driver)

-- `==` of dictionaries
abbrev pub same_options : List (String × String) → List (String × String) → Bool
same_options a b =
    all (λ (o : String × String). get o.0 b == some o.1) a
    && all (λ (o : String × String). get o.0 a == some o.1) b

abbrev pub options_or : Option (List (String × String)) → List (String × String)
options_or none = []
options_or (some options) = options

module _ (daemon : Daemon) (answer : List Call → String × List (String × String)) where
  unfoldable pub inspect : Network → M Unit
  inspect n = call daemon (Call.inspect_network (network_name n))

  -- `except NotFound` of a network that is declared external
  abbrev pub external_missing : Network → Result (Unit {0}) → Result (Unit {0})
  external_missing n (ok t) = ok t
  external_missing n (err e) =
      if is_not_found e then err (external_not_found (network_name n)) else err e

  abbrev pub compare : Network → String × List (String × String) → M Unit
  compare n (driver, options) =
      if driver_differs n.driver driver
      then raise (driver_changed (network_name n))
      else if not (same_options options (options_or n.driver_opts))
      then raise (options_changed (network_name n))
      else pure tt

  -- `except NotFound`: the network is created
  abbrev pub create_missing : Network → Result (Unit {0}) → M Unit
  create_missing n (ok t) = pure t
  create_missing n (err e) =
      if is_not_found e then call daemon (Call.create_network (network_name n)) else raise e

  abbrev pub ensure_external : Network → M Unit
  ensure_external n log = let (r, log') = inspect n log in (external_missing n r, log')

  abbrev pub ensure_own : Network → M Unit
  ensure_own n log =
      let (r, log') = (inspect n >>= λ t. (λ at. pure (answer at) at) >>= compare n) log in
      create_missing n r log'

  unfoldable pub ensure : Network → M Unit
  ensure n = if is_external n then ensure_external n else ensure_own n

  unfoldable pub remove : Network → M Unit
  remove n = if is_external n then pure tt else call daemon (Call.remove_network (network_name n))

  -- `except NotFound` of ProjectNetworks.remove
  abbrev pub warned : Result (Unit {0}) → Result (Unit {0})
  warned (ok t) = ok t
  warned (err e) = if is_not_found e then ok tt else err e

  unfoldable pub remove_network : Network → M Unit
  remove_network n log = let (r, log') = remove n log in (warned r, log')

  unfoldable pub remove_all : Bool → List Network → M Unit
  remove_all use_networking networks =
      if not use_networking then pure tt else for_each remove_network networks

  unfoldable pub initialize : Bool → List Network → M Unit
  initialize use_networking networks =
      if not use_networking then pure tt else for_each ensure networks

-- the keys of a network's configuration that are read here
pub record NetworkData : Type 0 where
  pub driver : Option String
  pub driver_opts : Option (List (String × String))
  pub external_name : Option String

abbrev pub network : String → String → NetworkData → Network
network project name settings = record {
  project = project;
  name = name;
  external_name = settings.external_name;
  driver = settings.driver;
  driver_opts = settings.driver_opts;
}

abbrev pub configured : String → List (String × NetworkData) → List (String × Network)
configured project [] = []
configured project ((network_name, settings) ∷ config) =
    (network_name, network project network_name settings) ∷ configured project config

abbrev pub with_default :
    String → Option Network → List (String × Network) → List (String × Network)
with_default project (some default) networks = networks
with_default project none networks =
    networks
    ++ (
      "default",
      network project "default"
          (record { driver = none; driver_opts = none; external_name = none }),
    )
      ∷ []

unfoldable pub build_networks : String → List (String × NetworkData) → List (String × Network)
build_networks project network_config =
    let networks = configured project network_config in
    with_default project (get "default" networks) networks
