-- ===== src/Service/Names.antt =====
-- The names, labels and environment that a service gives to its containers.
pub mod Laws
use docke_compose_customize.Prelude.{
  ℕ, String, Bool, true, false, not, ◌&&◌, Option, none, some, List, [], ◌∷◌, ◌++◌, map, concat,
  join, is_empty, split_once, if◌then◌else◌,
}
use docke_compose_customize.Result.{Result, ok, err, value_error, ◌>>=◌, ◌>>◌, traverse}
use docke_compose_customize.Container.{
  put, update, label_project, label_service, label_one_off, label_container_number, label_version,
  label_config_hash,
}

-- `'{0}={1}'.format(label, value)`
abbrev pub equation : String → String → String
equation label value = concat label (concat "=" value)

-- The project, the service's name and its option `container_name`.
pub record ServiceNames : Type 0 where
  pub project : String
  pub name : String
  pub custom_container_name : Option String

unfoldable pub labels : ServiceNames → Bool → List String
labels s one_off =
    equation label_project s.project
    ∷ equation label_service s.name
    ∷ equation label_one_off (if one_off then "True" else "False")
    ∷ []

abbrev pub truthy : Option String → Bool
truthy none = false
truthy (some s) = not (is_empty s)

abbrev pub custom : Option String → String → String
custom none default = default
custom (some s) default = s

-- `label.split('=', 1)` as an item of a dictionary
abbrev pub item : String → Option (String × String) → Result (String × String)
item label none = err (value_error label)
item label (some kv) = ok kv

abbrev pub with_hash : Option String → List (String × String) → List (String × String)
with_hash none d = d
with_hash (some config_hash) d =
    if is_empty config_hash then d else put label_config_hash config_hash d

module _ (str : ℕ → String) where
  unfoldable pub build_container_name : String → String → ℕ → Bool → String
  build_container_name project service number one_off =
      join "_"
        ((project ∷ service ∷ []) ++ (if one_off then "run" ∷ [] else []) ++ (str number ∷ []))

  unfoldable pub get_container_name : ServiceNames → ℕ → Bool → String
  unfolding build_container_name
  get_container_name s number one_off =
      let built = build_container_name s.project s.name number one_off in
      if truthy s.custom_container_name && not one_off
      then custom s.custom_container_name built
      else built

  -- `version` is `__version__`
  unfoldable pub build_container_labels :
      String
      → List (String × String)
      → List String
      → ℕ
      → Option String
      → Result (List (String × String))
  build_container_labels version label_options service_labels number config_hash = do
    items ← traverse (λ label. item label (split_once b'=' label)) service_labels
    ok (
        with_hash config_hash (
          put label_version version
            (put label_container_number (str number) (update label_options items))))

abbrev pub format_env : String × Option String → String
format_env (key, none) = key
format_env (key, some value) = equation key value

unfoldable pub format_environment : List (String × Option String) → List String
format_environment environment = map format_env environment
