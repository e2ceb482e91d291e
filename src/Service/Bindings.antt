-- ===== src/Service/Bindings.antt =====
-- compose/service.py: the volumes of a new container, where those of the previous container are
-- kept. A mount of the previous container is its destination and its name; the parameter
-- `set_order` makes `set(...)` of a list and gives the order in which it is gone through.
pub mod Kept
pub mod Samples
use docke_compose_customize.Prelude.{
  ℕ, String, Bool, true, false, not, ◌&&◌, ◌||◌, Option, none, some, List, [], ◌∷◌, ◌++◌, map, ◌==◌,
  string_eq, option_eq, filter, is_empty, concat, if◌then◌else◌,
}
use docke_compose_customize.Container.{Container, get, put, update, service}
use docke_compose_customize.Config.Volumes.{
  OsPath, VolumeSpec, parse_volume, volume_repr, is_truthy,
}
use docke_compose_customize.Result.{Result, ok, err, traverse, ◌>>=◌}

-- what is read of the previous container: `Mounts` with the destinations and the names, and the
-- `Volumes` of its image
pub record Previous : Type 0 where
  pub container : Container
  pub mounts : List (String × Option String)
  pub image_volumes : List String

abbrev pub with_external : VolumeSpec → String → VolumeSpec
with_external v name = record { external = some name; internal = v.internal; mode = v.mode }

-- `mount` and its name; a destination without a mount, or a mount without a name, gives nothing
abbrev pub kept : VolumeSpec → Option (Option String) → List VolumeSpec
kept v none = []
kept v (some none) = []
kept v (some (some name)) = if is_empty name then [] else with_external v name ∷ []

-- the body of the loop over the volumes
abbrev pub data_volume : List (String × Option String) → VolumeSpec → List VolumeSpec
data_volume mounts v = if is_truthy v.external then [] else kept v (get v.internal mounts)

unfoldable pub data_volumes : List (String × Option String) → List VolumeSpec → List VolumeSpec
data_volumes mounts [] = []
data_volumes mounts (v ∷ volumes) = data_volume mounts v ++ data_volumes mounts volumes

abbrev pub build_volume_binding : VolumeSpec → String × String
build_volume_binding v = (v.internal, volume_repr v)

-- the volumes of the configuration whose host path has no effect
abbrev pub is_masked : List (String × Option String) → VolumeSpec → Bool
is_masked container_volumes v =
    is_truthy v.external && differs v.external (get v.internal container_volumes)
  where
    differs : Option String → Option (Option String) → Bool
    differs external none = false
    differs external (some old) = not (old == external)

unfoldable pub warn_on_masked_volume : List VolumeSpec → List VolumeSpec → List VolumeSpec
warn_on_masked_volume volumes_option container_volumes =
    filter
      (is_masked (update [] (map (λ (v : VolumeSpec). (v.internal, v.external)) container_volumes)))
      volumes_option

-- the bindings, the affinity and the warnings
pub record Bindings : Type 0 where
  -- the dictionary whose values are returned
  pub volume_bindings : List (String × String)
  pub affinity : List (String × String)
  pub warnings : List VolumeSpec

abbrev pub affinity_of : Container → List VolumeSpec → List (String × String)
affinity_of c [] = []
affinity_of c (v ∷ old) = ("affinity:container", concat "=" c.id) ∷ []

abbrev pub external_bindings : List VolumeSpec → List (String × String)
external_bindings volumes =
    update [] (map build_volume_binding (filter (λ (v : VolumeSpec). is_truthy v.external) volumes))

module _ (os : OsPath) (set_order : List VolumeSpec → List VolumeSpec) where
  unfoldable pub get_container_data_volumes : Previous → List VolumeSpec → Result (List VolumeSpec)
  get_container_data_volumes previous volumes_option = do
    image_volumes ← traverse (parse_volume os) previous.image_volumes
    ok (data_volumes (update [] previous.mounts) (set_order (volumes_option ++ image_volumes)))

  unfoldable pub merge_volume_bindings : List VolumeSpec → Option Previous → Result Bindings
  merge_volume_bindings volumes none =
      ok (record { volume_bindings = external_bindings volumes; affinity = []; warnings = [] })
  merge_volume_bindings volumes (some previous) = do
    old ← get_container_data_volumes previous volumes
    ok (record {
      volume_bindings = update (external_bindings volumes) (map build_volume_binding old);
      affinity = affinity_of previous.container old;
      warnings = warn_on_masked_volume volumes old;
    })
