-- ===== src/Config/Files.antt =====
-- compose/config/config.py: the versions of Compose files, where they are looked for, and what is
-- taken together of several files. Which files exist, paths and `str` are parameters.
pub mod Search
pub mod Merged
pub mod External
pub mod Samples
use docke_compose_customize.Prelude.{
  ℕ, zero, suc, String, Bool, true, false, not, ◌&&◌, ◌||◌, Option, none, some, List, [], ◌∷◌, ◌++◌,
  ◌==◌, string_eq, filter, elem, is_empty, length, ltb, if◌then◌else◌,
}
use docke_compose_customize.Result.{
  Error, Result, ok, err, ◌>>=◌, ◌>>◌, diverged, type_error, key_error, value_error, not_an_object,
  version_not_text, version_is_1, unsupported_version, version_mismatch, external_with_attributes,
  compose_file_not_found,
}
use docke_compose_customize.Config.Value.{
  Value, null, boolean, num, str, arr, obj, Items, nil, cons, Fields, end, field, get_field,
  has_field, put_field, field_names,
}
use docke_compose_customize.Config.Types.{Version, v1, v2_0}

pub record ConfigFile : Type 0 where
  pub filename : String
  pub config : Value

abbrev pub version_of : String → Option Value → Result Version
version_of filename none = ok v1
version_of filename (some (obj d)) = ok v1
version_of filename (some (str version)) =
    if version == "1"
    then err (version_is_1 filename)
    else if version == "2" || version == "2.0"
    then ok v2_0
    else err (unsupported_version filename)
version_of filename (some v) = err (version_not_text filename)

abbrev pub fields_of : Value → Result Fields
fields_of (obj d) = ok d
fields_of v = err (type_error "dict")

unfoldable pub version : ConfigFile → Result Version
version f = fields_of f.config >>= λ d. version_of f.filename (get_field "version" d)

-- `self.config.get(key, {})`
abbrev pub section_or : Option Value → Value
section_or none = obj end
section_or (some v) = v

abbrev pub service_section : Version → Value → Fields → Value
service_section v1 config d = config
service_section v2_0 config d = section_or (get_field "services" d)

abbrev pub other_section : String → Version → Fields → Value
other_section key v1 d = obj end
other_section key v2_0 d = section_or (get_field key d)

unfoldable pub get_service_dicts : ConfigFile → Result Value
get_service_dicts f = do v ← version f; d ← fields_of f.config; ok (service_section v f.config d)

abbrev pub item_of : String → Option Value → Result Value
item_of key none = err (key_error key)
item_of key (some v) = ok v

unfoldable pub get_service : ConfigFile → String → Result Value
get_service f name = do
  services ← get_service_dicts f
  d ← fields_of services
  item_of name (get_field name d)

-- `get_volumes` and `get_networks`, with the key of the section
unfoldable pub get_section : String → ConfigFile → Result Value
get_section key f = do v ← version f; d ← fields_of f.config; ok (other_section key v d)

unfoldable pub validate_top_level_object : ConfigFile → Result (Unit {0})
validate_top_level_object f = object_only f.config
  where
    object_only : Value → Result (Unit {0})
    object_only (obj d) = ok tt
    object_only v = err (not_an_object f.filename)

abbrev pub same_version : Version → Version → Bool
same_version v1 v1 = true
same_version v2_0 v2_0 = true
same_version v w = false

unfoldable pub validate_versions : ConfigFile → List ConfigFile → Result (Unit {0})
validate_versions main_file [] = ok tt
validate_versions main_file (next_file ∷ files) = do
  validate_top_level_object next_file
  v ← version main_file
  w ← version next_file
  if same_version v w
      then validate_versions main_file files
      else err (version_mismatch next_file.filename)

unfoldable pub validate_config_version : List ConfigFile → Result (Unit {0})
validate_config_version [] = err (value_error "config_files[0]")
validate_config_version (main_file ∷ files) =
    validate_top_level_object main_file >> validate_versions main_file files

-- `join path name` is os.path.join, `abspath` os.path.abspath
module _ (join : String → String → String) (abspath : String → String)
    (exists : String → Bool) where
  abbrev pub candidates_in : List String → String → List String
  candidates_in filenames path = filter (λ filename. exists (join path filename)) filenames

  abbrev pub is_nil : List String → Bool
  is_nil [] = true
  is_nil (x ∷ xs) = false

  abbrev pub is_root : String → Bool
  is_root path = abspath (join path "..") == abspath path

  unfoldable pub find_candidates_in_parent_dirs :
      ℕ → List String → String → Result (List String × String)
  find_candidates_in_parent_dirs zero filenames path = err diverged
  find_candidates_in_parent_dirs (suc fuel) filenames path =
      let above = find_candidates_in_parent_dirs fuel filenames (join path "..") in
      if is_nil (candidates_in filenames path) && not (is_root path)
      then above
      else ok (candidates_in filenames path, path)

  unfoldable pub get_default_override_file : String → List String
  get_default_override_file path =
      if exists (join path "docker-compose.override.yml")
      then join path "docker-compose.override.yml" ∷ []
      else []

  abbrev pub winner_of : List String × String → Result (List String)
  winner_of ([], path) = err compose_file_not_found
  winner_of (winner ∷ candidates, path) = ok (join path winner ∷ get_default_override_file path)

  unfoldable pub get_default_config_files : ℕ → String → Result (List String)
  get_default_config_files fuel base_dir =
      find_candidates_in_parent_dirs fuel ("docker-compose.yml" ∷ "docker-compose.yaml" ∷ [])
        base_dir
      >>= winner_of

-- truth of a value
abbrev pub is_true : Value → Bool
is_true null = false
is_true (boolean b) = b
is_true (num n) = not (ltb n 1)
is_true (str s) = not (is_empty s)
is_true (arr nil) = false
is_true (arr (cons v vs)) = true
is_true (obj end) = false
is_true (obj (field k v d)) = true

abbrev pub null_or : Option Value → Value
null_or none = null
null_or (some v) = v

-- `config['external_name']` of an external volume or network
abbrev pub external_name : String → Value → Value
external_name name (obj external) = null_or (get_field "name" external)
external_name name v = str name

abbrev pub with_external_name : String → Value → Fields → Result Fields
with_external_name name external config =
    if not (is_true external)
    then ok config
    else if ltb 1 (length (field_names config))
    then err (external_with_attributes name)
    else ok (put_field "external_name" (external_name name external) config)

abbrev pub string_fields : (Value → String) → Fields → Fields
string_fields to_text end = end
string_fields to_text (field k v d) = field k (str (to_text v)) (string_fields to_text d)

-- `build_string_dict` of the option, where there is one
abbrev pub string_options : (Value → String) → Fields → Option Value → Result Fields
string_options to_text config none = ok config
string_options to_text config (some (obj options)) =
    ok (put_field "driver_opts" (obj (string_fields to_text options)) config)
string_options to_text config (some v) = err (type_error "driver_opts")

-- the body of the loop of load_mapping: what a volume or network of the configuration becomes
unfoldable pub load_item : (Value → String) → String → Value → Result Fields
load_item to_text name config = if not (is_true config) then ok end else do
  d ← fields_of config
  named ← with_external_name name (null_or (get_field "external" d)) d
  string_options to_text named (get_field "driver_opts" named)

unfoldable pub load_items : (Value → String) → Fields → Fields → Result Fields
load_items to_text mapping end = ok mapping
load_items to_text mapping (field name config items) = load_item to_text name config >>= λ loaded.
    load_items to_text (put_field name (obj loaded) mapping) items

unfoldable pub load_files : (Value → String) → String → Fields → List ConfigFile → Result Fields
load_files to_text key mapping [] = ok mapping
load_files to_text key mapping (f ∷ files) = do
  section ← get_section key f
  items ← fields_of section
  loaded ← load_items to_text mapping items
  load_files to_text key loaded files

unfoldable pub load_mapping : (Value → String) → String → List ConfigFile → Result Fields
load_mapping to_text key files = load_files to_text key end files

abbrev pub with_extends : Option Value → Option Value → Fields → Fields
with_extends (some extends) old new_service = put_field "extends" extends new_service
with_extends none (some extends) new_service = put_field "extends" extends new_service
with_extends none none new_service = new_service

-- the merging of two services, `merge` being merge_service_dicts
unfoldable pub merge_service_dicts_from_files :
    (Fields → Fields → Result Fields) → Fields → Fields → Result Fields
merge_service_dicts_from_files merge base override = do
  new_service ← merge base override
  ok (with_extends (get_field "extends" override) (get_field "extends" base) new_service)

abbrev pub service_or : Option Value → Fields
service_or (some (obj d)) = d
service_or v = end

-- the services of the names, merged
abbrev pub merge_named :
    (Fields → Fields → Result Fields) → Fields → Fields → List String → Result Fields
merge_named merge base override [] = ok end
merge_named merge base override (name ∷ names) =
    merge_service_dicts_from_files merge (service_or (get_field name base))
      (service_or (get_field name override))
    >>= λ service.
        (merge_named merge base override names >>= λ services.
        ok (put_field name (obj service) services))

-- `set(base) | set(override)`, of which the order plays no part
unfoldable pub merge_services : (Fields → Fields → Result Fields) → Fields → Fields → Result Fields
merge_services merge base override =
    merge_named merge base override (field_names base ++ field_names override)

-- the loop of load_services over the files after the first
unfoldable pub merge_each : (Fields → Fields → Result Fields) → Fields → List Fields → Result Fields
merge_each merge service_config [] = ok service_config
merge_each merge service_config (next_config ∷ configs) =
    merge_services merge service_config next_config >>= λ merged. merge_each merge merged configs

-- what load_services takes together, given what get_service_dicts gives of each file
unfoldable pub merge_all : (Fields → Fields → Result Fields) → List Fields → Result Fields
merge_all merge [] = err (value_error "service_configs[0]")
merge_all merge (service_config ∷ configs) = merge_each merge service_config configs
