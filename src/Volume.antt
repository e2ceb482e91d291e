-- ===== src/Volume.antt =====
-- compose/volume.py: creating and removing the volumes of a project.
-- The calls of the Docker client are recorded; `daemon` says what it answers.
pub mod Owned
pub mod Namespace
pub mod Samples
use docke_compose_customize.Prelude.{
  String, Bool, true, false, not, ◌&&◌, ◌||◌, Option, none, some, List, [], ◌∷◌, ◌==◌, string_eq,
  any, is_empty, join, if◌then◌else◌,
}
use docke_compose_customize.Result.{
  Error, Result, ok, err, not_found, external_not_found, driver_differs, nonexistent_driver,
}
use docke_compose_customize.Service.Client
use docke_compose_customize.Service.Client.{
  Call, Daemon, M, pure, raise, ◌>>=◌, ◌>>◌, for_each, call,
}

pub record Volume : Type 0 where
  pub project : String
  pub name : String
  pub driver : Option String
  pub external_name : Option String

abbrev truthy : Option String → Bool
truthy none = false
truthy (some s) = not (is_empty s)

unfoldable pub is_external : Volume → Bool
is_external v = truthy v.external_name

abbrev name_or : Option String → String → String
name_or none default = default
name_or (some s) default = if is_empty s then default else s

unfoldable pub full_name : Volume → String
full_name v = name_or v.external_name (join "_" (v.project ∷ v.name ∷ []))

abbrev pub is_not_found : Error → Bool
is_not_found not_found = true
is_not_found e = false

module _ (daemon : Daemon) where
  unfoldable pub create : Volume → M Unit
  create v = call daemon (Call.create_volume (full_name v))

  unfoldable pub remove : Volume → M Unit
  remove v = if is_external v then pure tt else call daemon (Call.remove_volume (full_name v))

  unfoldable pub inspect : Volume → M Unit
  inspect v = call daemon (Call.inspect_volume (full_name v))

  -- `except NotFound`
  abbrev pub found : Result (Unit {0}) → Result Bool
  found (ok t) = ok true
  found (err e) = if is_not_found e then ok false else err e

  unfoldable pub exists : Volume → M Bool
  exists v log = let (r, log') = inspect v log in (found r, log')

  abbrev pub differs : Option String → String → Bool
  differs none actual = false
  differs (some wanted) actual = not (actual == wanted)

  -- the driver of an existing volume is compared with the configuration's; for the message of the
  -- error the volume is inspected again
  abbrev pub compare_driver : Volume → String → M Unit
  compare_driver v actual =
      if differs v.driver actual then inspect v >> raise (driver_differs v.name) else pure tt

  -- the body of the loop of `initialize`
  abbrev pub ensure : Volume → Bool → M Unit
  ensure v volume_exists =
      if is_external v
      then (if not volume_exists then raise (external_not_found (full_name v)) else pure tt)
      else if not volume_exists
      then create v
      else (inspect v >> ((λ log. pure (daemon.driver log) log) >>= compare_driver v))

  -- `except NotFound` of `initialize`, which names the volume of the present round
  abbrev pub nonexistent : Volume → Result (Unit {0}) → Result (Unit {0})
  nonexistent v (ok t) = ok t
  nonexistent v (err e) = if is_not_found e then err (nonexistent_driver v.name) else err e

  unfoldable pub initialize_volume : Volume → M Unit
  initialize_volume v log = let (r, log') = (exists v >>= ensure v) log in (nonexistent v r, log')

  unfoldable pub initialize : List Volume → M Unit
  initialize volumes = for_each initialize_volume volumes

  -- `except NotFound` of `remove`
  abbrev pub warned : Result (Unit {0}) → Result (Unit {0})
  warned (ok t) = ok t
  warned (err e) = if is_not_found e then ok tt else err e

  unfoldable pub remove_volume : Volume → M Unit
  remove_volume v log = let (r, log') = remove v log in (warned r, log')

  unfoldable pub remove_all : List Volume → M Unit
  remove_all volumes = for_each remove_volume volumes
