-- ===== src/Config/Types.antt =====
-- compose/config/types.py: the objects that are parsed from strings of the configuration.
-- The built-ins `int`, `str` and `strip` are not of this repository: they are the parameter
-- `Numbers` and an argument.
pub mod Laws
pub mod Samples
use docke_compose_customize.Prelude.{
  String, ◌≡◌, Bool, true, false, ◌||◌, Option, none, some, List, [], ◌∷◌, ◌==◌, string_eq, elem,
  if◌then◌else◌, join, is_empty, has_char, split, split_once,
}
use docke_compose_customize.Result.{
  Result, ok, err, volume_from_format, unknown_volumes_from_type, restart_format, value_error,
  ◌>>=◌,
}

pub data Version : Type 0 where
  v1 v2_0 : Version

pub record VolumeFromSpec : Type 0 where
  pub source : String
  pub mode : String
  pub type : String

abbrev volume_from : String → String → String → VolumeFromSpec
volume_from source mode type = record { source = source; mode = mode; type = type }

-- the branches on `len(parts)`; `split` returns one part at least
parse_parts_v1 : List String → String → List String → Result VolumeFromSpec
parse_parts_v1 service_names config (source ∷ []) =
    ok (volume_from source "rw" (if elem source service_names then "service" else "container"))
parse_parts_v1 service_names config (source ∷ mode ∷ []) =
    ok (volume_from source mode (if elem source service_names then "service" else "container"))
parse_parts_v1 service_names config _ = err (volume_from_format config)

unfoldable pub parse_v1 : List String → String → Result VolumeFromSpec
unfolding parse_parts_v1
parse_v1 service_names config = parse_parts_v1 service_names config (split b':' config)

parse_parts_v2 : String → List String → Result VolumeFromSpec
parse_parts_v2 config (source ∷ []) = ok (volume_from source "rw" "service")
parse_parts_v2 config (first ∷ second ∷ []) =
    if first == "container"
    then ok (volume_from second "rw" first)
    else ok (volume_from first second "service")
parse_parts_v2 config (type ∷ source ∷ mode ∷ []) =
    if type == "service" || type == "container"
    then ok (volume_from source mode type)
    else err (unknown_volumes_from_type config)
parse_parts_v2 config _ = err (volume_from_format config)

unfoldable pub parse_v2 : String → Result VolumeFromSpec
unfolding parse_parts_v2
parse_v2 config = parse_parts_v2 config (split b':' config)

unfoldable pub parse_volume_from : String → List String → Version → Result VolumeFromSpec
parse_volume_from config service_names v1 = parse_v1 service_names config
parse_volume_from config service_names v2_0 = parse_v2 config

unfoldable pub volume_from_repr : VolumeFromSpec → String
volume_from_repr v = join ":" (v.type ∷ v.source ∷ v.mode ∷ [])

-- The built-ins `int` and `str` on integers. `int` returns `none` where it raises ValueError.
pub record Numbers : Type 1 where
  pub Number : Type 0
  pub zero : Number
  pub is_zero : Number → Bool
  pub int : String → Option Number
  pub str : Number → String
  pub is_zero_zero : (n : Number) → is_zero n ≡ true → n ≡ zero
  pub int-str : (n : Number) → int (str n) ≡ some n
  pub str_no_colon : (n : Number) → has_char b':' (str n) ≡ false

module _ (numbers : Numbers) where
  open numbers use {Number, zero, is_zero, int, str}

  -- {'Name': name, 'MaximumRetryCount': count}
  abbrev pub RestartSpec : Type 0
  RestartSpec = String × Number

  abbrev restart_count : String → String → Result (Option RestartSpec)
  restart_count name count = elim (int count) [
    | none ↦ err (value_error count)
    | some n ↦ ok (some (name, n))
  ]

  parse_restart_parts : String → List String → Result (Option RestartSpec)
  parse_restart_parts config (name ∷ count ∷ []) = restart_count name count
  parse_restart_parts config (name ∷ []) = ok (some (name, zero))
  parse_restart_parts config _ = err (restart_format config)

  pub parse_restart_spec : String → Result (Option RestartSpec)
  unfolding parse_restart_parts
  parse_restart_spec config =
      if is_empty config then ok none else parse_restart_parts config (split b':' config)

  pub serialize_restart_spec : RestartSpec → String
  serialize_restart_spec (name, n) = join ":" (if is_zero n then name ∷ [] else name ∷ str n ∷ [])

-- extra_hosts as a list of lines; `strip` is Python's
module _ (strip : String → String) where
  pub parse_extra_host : String → Result (String × String)
  parse_extra_host line = elim (split_once b':' line) [
    | none ↦ err (value_error line)
    | some (host, ip) ↦ ok (strip host, strip ip)
  ]

pub record ServiceLink : Type 0 where
  pub target : String
  pub alias : String

-- `link_spec.partition(':')`
abbrev partition : Option (String × String) → String → String × String
partition none s = (s, "")
partition (some p) s = p

unfoldable pub parse_link : String → ServiceLink
parse_link spec =
    let (target, alias) = partition (split_once b':' spec) spec in
    record { target = target; alias = if is_empty alias then target else alias }

unfoldable pub link_repr : ServiceLink → String
link_repr s = if s.target == s.alias then s.target else join ":" (s.target ∷ s.alias ∷ [])
