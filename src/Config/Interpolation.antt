-- ===== src/Config/Interpolation.antt =====
-- compose/config/interpolation.py: the variables in a Compose file.
-- `substitute` is `Template(string).substitute(mapping)` with the mapping applied, `none` where it
-- raises ValueError.
pub mod Laws
pub mod Samples
use docke_compose_customize.Prelude.{String, Option, none, some, List, [], ◌∷◌}
use docke_compose_customize.Result.{
  Error, Result, ok, err, invalid_interpolation, invalid_option, type_error, ◌>>=◌,
}
use docke_compose_customize.Config.Value.{
  Value, null, boolean, num, str, arr, obj, Items, nil, cons, Fields, end, field,
}

module _ (substitute : String → Option String) where
  abbrev pub substituted : String → Option String → Result String
  substituted string none = err (invalid_interpolation string)
  substituted string (some s) = ok s

  unfoldable pub interpolate : String → Result String
  interpolate string = substituted string (substitute string)

  unfoldable mutual
    pub recursive_interpolate : Value → Result Value
    recursive_interpolate null = ok null
    recursive_interpolate (boolean b) = ok (boolean b)
    recursive_interpolate (num n) = ok (num n)
    recursive_interpolate (str s) = interpolate s >>= λ t. ok (str t)
    recursive_interpolate (arr vs) = interpolate_items vs >>= λ ws. ok (arr ws)
    recursive_interpolate (obj d) = interpolate_fields d >>= λ e. ok (obj e)

    pub interpolate_items : Items → Result Items
    interpolate_items nil = ok nil
    interpolate_items (cons v vs) =
        recursive_interpolate v >>= λ w. (interpolate_items vs >>= λ ws. ok (cons w ws))

    pub interpolate_fields : Fields → Result Fields
    interpolate_fields end = ok end
    interpolate_fields (field k v d) =
        recursive_interpolate v >>= λ w. (interpolate_fields d >>= λ e. ok (field k w e))

  -- `except InvalidInterpolation`
  abbrev pub named : String → String → String → Result Value → Result Value
  named name config_key section (ok v) = ok v
  named name config_key section (err (invalid_interpolation string)) =
      err (invalid_option config_key section name string)
  named name config_key section (err e) = err e

  unfoldable pub interpolate_value : String → String → Value → String → Result Value
  interpolate_value name config_key value section =
      named name config_key section (recursive_interpolate value)

  unfoldable pub process_items : String → String → Fields → Result Fields
  process_items section name end = ok end
  process_items section name (field key val config_dict) =
      interpolate_value name key val section >>= λ w.
      (process_items section name config_dict >>= λ e. ok (field key w e))

  -- `process_item(name, config_dict or {})`; a value that has no items is refused before
  abbrev pub process_item : String → String → Value → Result Value
  process_item section name null = ok (obj end)
  process_item section name (obj d) = process_items section name d >>= λ e. ok (obj e)
  process_item section name v = err (type_error name)

  unfoldable pub interpolate_environment_variables : Fields → String → Result Fields
  interpolate_environment_variables end section = ok end
  interpolate_environment_variables (field name config_dict config) section =
      process_item section name config_dict >>= λ w.
      (interpolate_environment_variables config section >>= λ e. ok (field name w e))
