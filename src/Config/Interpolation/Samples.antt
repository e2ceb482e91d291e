-- ===== src/Config/Interpolation/Samples.antt =====
-- A value to evaluate interpolation on.
use docke_compose_customize.Prelude.{
  String, ◌≡◌, refl, Option, none, some, ◌==◌, string_eq, if◌then◌else◌,
}
use docke_compose_customize.Result.{ok, err, invalid_option}
use docke_compose_customize.Config.Value.{Value, str, num, arr, obj, nil, cons, end, field, null}
use docke_compose_customize.Config.Interpolation.{
  interpolate, recursive_interpolate, interpolate_value, process_items,
  interpolate_environment_variables,
}
use docke_compose_customize.Config.Interpolation.Laws.{
  strings, shape, Substituted, recursive_interpolate_lem,
}

-- `$X` is `1`, and a single `$` is malformed
abbrev substitute : String → Option String
substitute s = if s == "$X" then some "1" else if s == "$" then none else some s

abbrev ports : Value
ports = arr (cons (str "$X") (cons (num 80) nil))

interpolate_config :
    interpolate_environment_variables substitute
      (field "web" (obj (field "ports" ports end)) (field "db" null end))
      "service"
    ≡ ok (
        field "web"
          (obj (field "ports" (arr (cons (str "1") (cons (num 80) nil))) end))
          (field "db" (obj end) end))
unfolding interpolate_environment_variables process_items interpolate_value recursive_interpolate
    interpolate
interpolate_config = refl

interpolate_malformed :
    interpolate_environment_variables substitute
      (field "web" (obj (field "image" (str "$") end)) end)
      "service"
    ≡ err (invalid_option "image" "service" "web" "$")
unfolding interpolate_environment_variables process_items interpolate_value recursive_interpolate
    interpolate
interpolate_malformed = refl

recursive_interpolate_lem_example :
    Substituted substitute strings shape ports (recursive_interpolate substitute ports)
recursive_interpolate_lem_example = recursive_interpolate_lem substitute ports
