-- ===== src/Volume/Namespace.antt =====
-- compose/volume.py: the volumes of a project from its configuration, and the volumes of a service
-- under the names that they have outside the project.
use docke_compose_customize.Prelude.{String, Option, none, some, List, [], ◌∷◌, if◌then◌else◌}
use docke_compose_customize.Result.{Result, ok, err, key_error}
use docke_compose_customize.Container.{get}
use docke_compose_customize.Config.Volumes.{VolumeSpec, is_named_volume, or_empty}
use docke_compose_customize.Volume.{Volume, full_name}

-- the keys of a volume's configuration that are read here
pub record VolumeData : Type 0 where
  pub driver : Option String
  pub external_name : Option String

unfoldable pub volumes_from_config : String → List (String × VolumeData) → List (String × Volume)
volumes_from_config project [] = []
volumes_from_config project ((vol_name, found) ∷ config_volumes) =
    (
      vol_name,
      record {
        project = project;
        name = vol_name;
        driver = found.driver;
        external_name = found.external_name;
      },
    )
    ∷ volumes_from_config project config_volumes

abbrev pub renamed : VolumeSpec → Option Volume → Result VolumeSpec
renamed volume_spec none = err (key_error (or_empty volume_spec.external))
renamed volume_spec (some volume) = ok (record volume_spec { external = some (full_name volume) })

unfoldable pub namespace_spec : List (String × Volume) → VolumeSpec → Result VolumeSpec
namespace_spec volumes volume_spec =
    if is_named_volume volume_spec
    then renamed volume_spec (get (or_empty volume_spec.external) volumes)
    else ok volume_spec
