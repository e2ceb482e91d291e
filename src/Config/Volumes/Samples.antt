-- ===== src/Config/Volumes/Samples.antt =====
-- The theorems about volumes on a platform whose paths are all in normal form.
use docke_compose_customize.Prelude.{
  String, ◌≡◌, refl, Bool, false, Option, none, some, is_empty, has_char,
}
use docke_compose_customize.Prelude
use docke_compose_customize.Result.{ok}
use docke_compose_customize.Config.Volumes.{OsPath, VolumeSpec, parse_volume, volume_repr}
use docke_compose_customize.Config.Volumes.Laws.{IsPosix, parse_volume-repr, anonymous-repr}

abbrev or_dot : String → String
or_dot String.[] = "."
or_dot (String.◌∷◌ c s) = String.◌∷◌ c s

abbrev plain : OsPath
plain = record { is_windows = false; splitdrive = λ s. ("", s); normpath = or_dot; lower = λ s. s }

or_dot_idem : (s : String) → or_dot (or_dot s) ≡ or_dot s
or_dot_idem String.[] = refl
or_dot_idem (String.◌∷◌ c s) = refl

or_dot_non_empty : (s : String) → is_empty (or_dot s) ≡ false
or_dot_non_empty String.[] = refl
or_dot_non_empty (String.◌∷◌ c s) = refl

or_dot_no_colon : (s : String) → has_char b':' s ≡ false → has_char b':' (or_dot s) ≡ false
or_dot_no_colon String.[] h = refl
or_dot_no_colon (String.◌∷◌ c s) h = h

plain-IsPosix : IsPosix plain
plain-IsPosix = record {
  posix = refl;
  idempotent = or_dot_idem;
  non_empty = or_dot_non_empty;
  no_colon = or_dot_no_colon;
}

abbrev home : VolumeSpec
home = record { external = some "/home"; internal = "/data"; mode = "ro" }

home_parsed : parse_volume plain "/home:/data:ro" ≡ ok home
unfolding parse_volume Prelude.split
home_parsed = refl

parse_volume-repr_example : parse_volume plain (volume_repr home) ≡ ok home
parse_volume-repr_example =
    parse_volume-repr plain plain-IsPosix "/home:/data:ro" home home_parsed refl

anonymous-repr_example :
    parse_volume plain (volume_repr (record { external = none; internal = "/data"; mode = "rw" }))
    ≡ ok (record { external = some "/data"; internal = "rw"; mode = "rw" })
anonymous-repr_example = anonymous-repr plain plain-IsPosix "/data" "rw" refl refl
