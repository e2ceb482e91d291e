-- ===== src/Config/Validation.antt =====
-- compose/config/validation.py and config.py: the checks of a service that are written out.
-- The schema gives an `image` that is a text, and limits that are integers, or have both `soft` and
-- `hard`. validate_service_constraints, which is that schema, and validate_paths, which asks the file
-- system, are parameters.
pub mod Resolved
pub mod Samples
use Prim.Native.Char.{Char, code}
use Prim.Native.String
use docke_compose_customize.Prelude.{
  ℕ, String, Bool, true, false, not, ◌&&◌, ◌||◌, Option, none, some, List, [], ◌∷◌, ◌==◌, string_eq,
  elem, is_empty, split, leb, if◌then◌else◌,
}
use docke_compose_customize.Result.{
  Result, ok, err, ◌>>=◌, ◌>>◌, combined_networks, undefined_network_service, undefined_link,
  undefined_dependency, invalid_ulimit, uppercase_name,
}
use docke_compose_customize.Config.SortServices.{
  ServiceDict, first_part, get_service_name_from_network_mode,
}

pub data ℤ : Type 0 where
  pos : ℕ → ℤ
  -- `-1 - n`
  negsuc : ℕ → ℤ

abbrev pub leb_ℤ : ℤ → ℤ → Bool
leb_ℤ (pos m) (pos n) = leb m n
leb_ℤ (pos m) (negsuc n) = false
leb_ℤ (negsuc m) (pos n) = true
leb_ℤ (negsuc m) (negsuc n) = leb n m

pub data Ulimit : Type 0 where
  limit : ℤ → Ulimit
  soft_hard : ℤ → ℤ → Ulimit

-- the keys of a service that are checked
pub record Checked : Type 0 where
  pub dict : ServiceDict
  pub has_networks : Bool
  pub image : Option String
  pub ulimits : List (String × Ulimit)

abbrev pub is_allowed : Ulimit → Bool
is_allowed (limit n) = true
is_allowed (soft_hard soft hard) = leb_ℤ soft hard

unfoldable pub validate_ulimits : String → List (String × Ulimit) → Result (Unit {0})
validate_ulimits name [] = ok tt
validate_ulimits name ((limit_name, values) ∷ ulimits) =
    let rest = validate_ulimits name ulimits in
    if is_allowed values then rest else err (invalid_ulimit name limit_name)

abbrev pub is_given : Option String → Bool
is_given none = false
is_given (some s) = not (is_empty s)

-- the service of the network mode, where it has one
abbrev pub validate_dependency : List String → String → Option String → Result (Unit {0})
validate_dependency service_names name none = ok tt
validate_dependency service_names name (some dep) =
    if is_empty dep
    then ok tt
    else if elem dep service_names
    then ok tt
    else err (undefined_network_service name dep)

unfoldable pub validate_network_mode : List String → Checked → Result (Unit {0})
validate_network_mode service_names c =
    if not (is_given c.dict.network_mode)
    then ok tt
    else if c.has_networks
    then err combined_networks
    else validate_dependency service_names c.dict.name
        (get_service_name_from_network_mode c.dict.network_mode)

unfoldable pub validate_links : List String → String → List String → Result (Unit {0})
validate_links service_names name [] = ok tt
validate_links service_names name (link ∷ links) =
    let rest = validate_links service_names name links in
    if elem (first_part (split b':' link)) service_names
    then rest
    else err (undefined_link name link)

unfoldable pub validate_depends_on : List String → String → List String → Result (Unit {0})
validate_depends_on service_names name [] = ok tt
validate_depends_on service_names name (dependency ∷ depends_on) =
    let rest = validate_depends_on service_names name depends_on in
    if elem dependency service_names then rest else err (undefined_dependency name dependency)

abbrev pub is_uppercase : Char → Bool
is_uppercase c = leb 65 (code c) && leb (code c) 90

unfoldable pub has_uppercase : String → Bool
has_uppercase String.[] = false
has_uppercase (String.◌∷◌ c s) = is_uppercase c || has_uppercase s

module _ (validate_service_constraints validate_paths : Checked → Result (Unit {0})) where
  unfoldable pub validate_service : List String → Checked → Result (Unit {0})
  validate_service service_names c = do
    validate_service_constraints c
    validate_paths c
    validate_ulimits c.dict.name c.ulimits
    validate_network_mode service_names c
    validate_depends_on service_names c.dict.name c.dict.depends_on
    validate_links service_names c.dict.name c.dict.links
    if not (is_given c.image) && has_uppercase c.dict.name
        then err (uppercase_name c.dict.name)
        else ok tt
