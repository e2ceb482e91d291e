-- ===== src/Config/Volumes.antt =====
-- compose/config/types.py: VolumeSpec. `os.path` and `sys.platform` are the parameter `OsPath`.
pub mod Laws
pub mod Samples
use Prim.Native.Char.{code}
use docke_compose_customize.Prelude.{
  ℕ, String, Bool, false, not, ◌&&◌, ◌||◌, Option, none, some, List, [], ◌∷◌, ◌==◌, nat_eq,
  if◌then◌else◌, concat, join, is_empty, split, starts_with,
}
use docke_compose_customize.Result.{Result, ok, err, volume_format}

-- `os.path` and `sys.platform`
pub record OsPath : Type 0 where
  pub is_windows : Bool
  pub splitdrive : String → String × String
  pub normpath : String → String
  pub lower : String → String

pub record VolumeSpec : Type 0 where
  pub external : Option String
  pub internal : String
  pub mode : String

-- `s.rstrip(':')`
abbrev strip_colon : ℕ → String → String → String
strip_colon c s String.[] = if c == b':' then "" else s
strip_colon c s (String.◌∷◌ d t) = s

pub rstrip_colon : String → String
rstrip_colon String.[] = ""
rstrip_colon (String.◌∷◌ c s) =
    let rest = rstrip_colon s in strip_colon (code c) (String.◌∷◌ c rest) rest

-- `s.replace('\\', '/')`
pub forward_slashes : String → String
forward_slashes String.[] = ""
forward_slashes (String.◌∷◌ c s) = String.◌∷◌ (if code c == 92 then "/" else c) (forward_slashes s)

-- `parts[0] = drive + parts[0]`
abbrev prepend : String → List String → List String
prepend drive [] = []
prepend drive (first ∷ rest) = concat drive first ∷ rest

module _ (os : OsPath) where
  -- the branch `if external_path`
  normalize_external : String → String
  normalize_external path =
      if is_empty path
      then path
      else (let (drive, tail) = os.splitdrive path in
          forward_slashes (
            if is_empty drive
            then path
            else concat "/" (concat (rstrip_colon (os.lower drive)) tail)))

  abbrev normalize_option : Option String → Option String
  unfolding normalize_external
  normalize_option none = none
  normalize_option (some path) = some (normalize_external path)

  pub normalize_paths_for_engine : Option String → String → Option String × String
  unfolding normalize_option
  normalize_paths_for_engine external internal =
      if not os.is_windows
      then (external, internal)
      else (normalize_option external, forward_slashes internal)

  abbrev volume : Option String × String → String → VolumeSpec
  volume (external, internal) mode = record {
    external = external;
    internal = internal;
    mode = mode;
  }

  -- on Windows the drive is joined to the first part again
  volume_parts : String → List String
  volume_parts config =
      if os.is_windows
      then (let (drive, tail) = os.splitdrive config in
          if is_empty drive then split b':' tail else prepend drive (split b':' tail))
      else split b':' config

  parse_volume_parts : String → List String → Result VolumeSpec
  parse_volume_parts config (internal ∷ []) =
      ok (volume (normalize_paths_for_engine none (os.normpath internal)) "rw")
  parse_volume_parts config (external ∷ internal ∷ []) = ok (
      volume (normalize_paths_for_engine (some (os.normpath external)) (os.normpath internal)) "rw")
  parse_volume_parts config (external ∷ internal ∷ mode ∷ []) = ok (
      volume (normalize_paths_for_engine (some (os.normpath external)) (os.normpath internal)) mode)
  parse_volume_parts config _ = err (volume_format config)

  pub parse_volume : String → Result VolumeSpec
  unfolding parse_volume_parts volume_parts normalize_paths_for_engine
  parse_volume config = parse_volume_parts config (volume_parts config)

-- truth of an optional text: neither None nor empty
abbrev pub is_truthy : Option String → Bool
is_truthy none = false
is_truthy (some s) = not (is_empty s)

abbrev pub or_empty : Option String → String
or_empty none = ""
or_empty (some s) = s

unfoldable pub volume_repr : VolumeSpec → String
volume_repr v =
    if is_truthy v.external
    then join ":" (or_empty v.external ∷ v.internal ∷ v.mode ∷ [])
    else join ":" (v.internal ∷ v.mode ∷ [])

unfoldable pub is_named_volume : VolumeSpec → Bool
is_named_volume v =
    is_truthy v.external
    && not (
        starts_with (or_empty v.external) "."
        || starts_with (or_empty v.external) "/"
        || starts_with (or_empty v.external) "~")
