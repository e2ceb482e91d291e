-- ===== src/Config/Merge.antt =====
-- compose/config/config.py and environment.py: merging a service with the one that it extends.
-- A field is `none` where the dictionary does not have it. `splitdrive` is ntpath.splitdrive, and
-- `before` the order of texts that `sorted` uses.
pub mod Laws
pub mod Samples
use docke_compose_customize.Result.{Result, ok, err, ◌>>=◌, not_list_or_mapping}
use docke_compose_customize.Prelude.{
  String, Bool, true, false, not, ◌&&◌, ◌||◌, Option, none, some, List, [], ◌∷◌, ◌++◌, map, filter,
  elem, ◌==◌, string_eq, concat, join, split_once, starts_with, if◌then◌else◌,
}
use docke_compose_customize.Container.{get, put, update}

abbrev pub env_pair : String → Option (String × String) → String × Option String
env_pair env none = (env, none)
env_pair env (some (key, value)) = (key, some value)

unfoldable pub split_env : String → String × Option String
split_env env = env_pair env (split_once b'=' env)

abbrev pub label_pair : String → Option (String × String) → String × Option String
label_pair label none = (label, some "")
label_pair label (some (key, value)) = (key, some value)

unfoldable pub split_label : String → String × Option String
split_label label = label_pair label (split_once b'=' label)

-- What stands for `environment`, `labels` or build arguments; the schema allows no `of_other_type`.
pub data Arguments : Type 0 where
  items : List String → Arguments
  mapping : List (String × Option String) → Arguments
  -- a true value of another type
  of_other_type : Arguments

abbrev pub Mapping : Type 0
Mapping = List (String × Option String)

-- `dict(...)` keeps the last value of a key
unfoldable pub parse_dict_or_list :
    (String → String × Option String) → Option Arguments → Result Mapping
parse_dict_or_list split_func none = ok []
parse_dict_or_list split_func (some (items arguments)) = ok (update [] (map split_func arguments))
parse_dict_or_list split_func (some (mapping arguments)) = ok (update [] arguments)
parse_dict_or_list split_func (some of_other_type) = err not_list_or_mapping

abbrev pub needs_merge {ℓ} : {A : Type ℓ} → Option A → Option A → Bool
needs_merge none none = false
needs_merge base override = true

unfoldable pub merge_mapping :
    (Option Arguments → Result Mapping)
    → Option Arguments
    → Option Arguments
    → Result (Option Mapping)
merge_mapping parse_func base override =
    if needs_merge base override
    then (parse_func base >>= λ merged.
        (parse_func override >>= λ more. ok (some (update merged more))))
    else ok none

abbrev pub merge_scalar {ℓ} : {A : Type ℓ} → Option A → Option A → Option A
merge_scalar base (some override) = some override
merge_scalar base none = base

-- the fields `image` and `build` of a service of version 1
pub record ImageOrBuild : Type 0 where
  pub image : Option String
  pub build : Option String

abbrev pub image_or_build : Option String → Option String → Option ImageOrBuild
image_or_build (some image) build = some (record { image = some image; build = none })
image_or_build none (some build) = some (record { image = none; build = some build })
image_or_build none none = none

unfoldable pub legacy_v1_merge_image_or_build : ImageOrBuild → ImageOrBuild → ImageOrBuild
legacy_v1_merge_image_or_build base override = elim (image_or_build override.image override.build) [
  | some output ↦ output
  | none ↦ elim (image_or_build base.image base.build) [
    | some output ↦ output
    | none ↦ record { image = none; build = none }
  ]
]

abbrev pub path_pair : String → String → Option (String × String) → String × Option String
path_pair volume_path drive none = (volume_path, none)
path_pair volume_path drive (some (host, container)) = (container, some (concat drive host))

module _ (splitdrive : String → String × String) where
  abbrev pub drive_of : String → String × String
  drive_of volume_path =
      if starts_with volume_path "." || starts_with volume_path "~"
      then ("", volume_path)
      else splitdrive volume_path

  unfoldable pub split_path_mapping : String → String × Option String
  split_path_mapping volume_path =
      path_pair volume_path (drive_of volume_path).0 (split_once b':' (drive_of volume_path).1)

  unfoldable pub join_path_mapping : String × Option String → String
  join_path_mapping (container, none) = container
  join_path_mapping (container, some host) = join ":" (host ∷ container ∷ [])

  unfoldable pub dict_from_path_mappings : Option (List String) → Mapping
  dict_from_path_mappings none = []
  dict_from_path_mappings (some path_mappings) = update [] (map split_path_mapping path_mappings)

  module _ (before : String → String → Bool) where
    abbrev pub insert_item : String × Option String → Mapping → Mapping
    insert_item item [] = item ∷ []
    insert_item item (i ∷ rest) =
        let later = insert_item item rest in
        if before item.0 i.0 then item ∷ i ∷ rest else i ∷ later

    abbrev pub sorted_items : Mapping → Mapping
    sorted_items [] = []
    sorted_items (i ∷ rest) = insert_item i (sorted_items rest)

    unfoldable pub path_mappings_from_dict : Mapping → List String
    path_mappings_from_dict d = map join_path_mapping (sorted_items d)

    unfoldable pub merge_path_mappings : Option (List String) → Option (List String) → List String
    merge_path_mappings base override =
        path_mappings_from_dict
          (update (dict_from_path_mappings base) (dict_from_path_mappings override))

-- `environment` is empty where there is none
unfoldable pub resolve_env_var :
    String → Option String → List (String × String) → String × Option String
resolve_env_var key (some val) environment = (key, some val)
resolve_env_var key none environment = (key, get key environment)
