-- ===== src/Config/Extends.antt =====
-- compose/config/config.py: ServiceExtendsResolver. A service's dictionary is `Fields`.
-- What reads a file (ConfigFile.from_filename with the checks and the interpolation of
-- process_config_file, get_service), process_service, merge_service_dicts and os.path are parameters.
pub mod Chain
pub mod Samples
use docke_compose_customize.Prelude.{
  ℕ, zero, suc, String, ◌≡◌, ◌↔◌, Bool, true, false, not, ◌&&◌, Option, none, some, option_eq,
  option_beq_iff, List, [], ◌∷◌, ◌++◌, ◌==◌, Eq, string_eq, elem, is_empty, arith, if◌then◌else◌,
}
use docke_compose_customize.Result.{
  Signature, Error, Result, ok, err, diverged, circular_reference, cannot_extend, no_extends_file,
  type_error, value_error, ◌>>=◌, ◌>>◌,
}
use docke_compose_customize.Config.Value.{Value, str, obj, Fields, get_field, has_field}
use docke_compose_customize.Config.SortServices.{
  get_service_name_from_network_mode, get_container_name_from_network_mode,
}

pub record ServiceConfig : Type 0 where
  pub working_dir : String
  pub filename : Option String
  pub name : String
  pub config : Fields

abbrev pub signature_beq : Signature → Signature → Bool
signature_beq a b = a.filename == b.filename && a.name == b.name

pub signature_beq_iff : (a b : Signature) → (signature_beq a b ≡ true) ↔ (a ≡ b)
signature_beq_iff a b =
    ground (arith, option_beq_iff a.filename b.filename, string_eq.beq_iff a.name b.name)

instance abbrev pub signature_eq : Eq Signature
signature_eq = record { beq = signature_beq; beq_iff = signature_beq_iff }

unfoldable pub signature : ServiceConfig → Signature
signature c = record { filename = c.filename; name = c.name }

-- `extends` as a dictionary: the service and the file that it names
pub record ExtendsOptions : Type 0 where
  pub service : String
  pub file : Option String

abbrev file_option : Option Value → Option String → Result ExtendsOptions
file_option none none = err (type_error "service")
file_option none (some service) = ok (record { service = service; file = none })
file_option (some (str file)) none = err (type_error "service")
file_option (some (str file)) (some service) = ok (record { service = service; file = some file })
file_option (some v) service = err (type_error "file")

abbrev text_of : Option Value → Option String
text_of (some (str s)) = some s
text_of v = none

-- other values are refused by the schema before
unfoldable pub extends_options : Value → Result ExtendsOptions
extends_options (str service) = ok (record { service = service; file = none })
extends_options (obj d) = file_option (get_field "file" d) (text_of (get_field "service" d))
extends_options v = err (type_error "extends")

abbrev pub names_container : Option Value → Bool
names_container (some (str mode)) = elim (get_container_name_from_network_mode (some mode)) [
  | none ↦ false
  | some n ↦ not (is_empty n)
]
names_container v = false

abbrev pub names_service : Option Value → Bool
names_service (some (str mode)) = elim (get_service_name_from_network_mode (some mode)) [
  | none ↦ false
  | some n ↦ not (is_empty n)
]
names_service v = false

unfoldable pub validate_extended_service_dict : Fields → Result (Unit {0})
validate_extended_service_dict service_dict =
    if has_field "links" service_dict
    then err (cannot_extend "links")
    else if has_field "volumes_from" service_dict
    then err (cannot_extend "volumes_from")
    else if names_container (get_field "net" service_dict)
    then err (cannot_extend "net: container")
    else if names_service (get_field "network_mode" service_dict)
    then err (cannot_extend "network_mode: service")
    else if has_field "depends_on" service_dict
    then err (cannot_extend "depends_on")
    else ok tt

-- `os.path` and the functions of other modules that the resolver calls; `load path name` is the
-- dictionary of a service in a file.
pub record Files : Type 0 where
  pub abspath : String → String
  pub dirname : String → String
  pub expand_path : String → String → String
  pub load : Option String → String → Result Fields
  pub process_service : ServiceConfig → Result Fields
  pub merge_service_dicts : Fields → Fields → Result Fields

module _ (files : Files) where
  abbrev pub absolute : Option String → Option String
  absolute none = none
  absolute (some f) = if is_empty f then some f else some (files.abspath f)

  unfoldable pub with_abs_paths : String → Option String → String → Fields → Result ServiceConfig
  with_abs_paths working_dir filename name config =
      if is_empty working_dir
      then err (value_error "working_dir")
      else ok (record {
        working_dir = files.abspath working_dir;
        filename = absolute filename;
        name = name;
        config = config;
      })

  abbrev pub path_of : ServiceConfig → Option String → Result (Option String)
  path_of c (some file) = ok (some (files.expand_path c.working_dir file))
  path_of c none = elim c.filename [ none ↦ err (no_extends_file c.name) | some f ↦ ok (some f) ]

  -- with `validate_extends_file_path`
  unfoldable pub get_extended_config_path : ServiceConfig → ExtendsOptions → Result (Option String)
  get_extended_config_path c options = path_of c options.file

  -- `os.path.dirname(extended_config_path)`
  abbrev pub dir_of : Option String → String
  dir_of none = ""
  dir_of (some path) = files.dirname path

  -- `validate_and_construct_extends`, and the configuration that `resolve_extends` goes on with
  unfoldable pub extended : ServiceConfig → Value → Result ServiceConfig
  extended c extends = do
    options ← extends_options extends
    path ← get_extended_config_path c options
    service_dict ← files.load path options.service
    with_abs_paths (dir_of path) path options.service service_dict

  -- the end of `resolve_extends`
  unfoldable pub merge_extended : ServiceConfig → ServiceConfig → Result ServiceConfig
  merge_extended c resolved = do
    other_service_dict ← files.process_service resolved
    validate_extended_service_dict other_service_dict
    config ← files.merge_service_dicts other_service_dict c.config
    ok (record c { config = config })

  abbrev pub extend_with :
      (ServiceConfig → Result ServiceConfig) → ServiceConfig → Option Value → Result ServiceConfig
  extend_with rec c none = ok c
  extend_with rec c (some extends) = extended c extends >>= rec >>= merge_extended c

  unfoldable pub run : ℕ → List Signature → ServiceConfig → Result ServiceConfig
  run zero already_seen c = err diverged
  run (suc fuel) already_seen c =
      let next =
        extend_with (run fuel (already_seen ++ signature c ∷ [])) c
          (get_field "extends" c.config) in
      if elem (signature c) already_seen
      then err (circular_reference (already_seen ++ signature c ∷ []))
      else next
