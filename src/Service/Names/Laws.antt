-- ===== src/Service/Names/Laws.antt =====
-- What is read of a container is what the service gave it.
use docke_compose_customize.Prelude.{
  ℕ, String, ◌≡◌, refl, ap, ◌∙◌, Bool, false, Option, none, some, List, [], ◌∷◌, map, is_empty,
  split_once, split_once-none, split_once-concat, has_char, if◌then◌else◌, ◌==◌, string_eq, eq_refl,
  arith, All,
}
use docke_compose_customize.Result.{ok, traverse}
use docke_compose_customize.Container.{
  Container, get, put, update, parse_env, environment, label_project, label_service, label_one_off,
  label_container_number, label_version, label_config_hash,
}
use docke_compose_customize.Service.Names.{
  equation, ServiceNames, labels, item, with_hash, build_container_labels, format_env,
  format_environment,
}

get-put_same : (key v : String) (d : List (String × String)) → get key (put key v d) ≡ some v
get-put_same key v [] = ground (arith, eq_refl key)
get-put_same key v ((k, w) ∷ rest) = ground (arith, eq_refl key, get-put_same key v rest)

get-put_other :
    (key j v : String) (d : List (String × String))
    → (j == key) ≡ false
    → get key (put j v d) ≡ get key d
get-put_other key j v [] h = ground (arith, h)
get-put_other key j v ((k, w) ∷ rest) h =
    ground (arith, h, string_eq.beq_iff k j, get-put_other key j v rest h)

get-with_hash :
    (key : String) (hash : Option String) (d : List (String × String))
    → (label_config_hash == key) ≡ false
    → get key (with_hash hash d) ≡ get key d
get-with_hash key none d h = refl
get-with_hash key (some hash) d h = ground (arith, get-put_other key label_config_hash hash d h)

split-equation :
    (label value : String)
    → has_char b'=' label ≡ false
    → split_once b'=' (equation label value) ≡ some (label, value)
split-equation label value h = split_once-concat b'=' "=" label value refl h

traverse-labels :
    (s : ServiceNames) (one_off : Bool)
    → traverse (λ label. item label (split_once b'=' label)) (labels s one_off)
      ≡ ok (
          (label_project, s.project)
          ∷ (label_service, s.name)
          ∷ (label_one_off, if one_off then "True" else "False")
          ∷ [])
unfolding labels
traverse-labels s one_off =
    rw
      (
        split-equation label_project s.project refl,
        split-equation label_service s.name refl,
        split-equation label_one_off (if one_off then "True" else "False") refl,
      )
      refl

-- a label that no later step sets
get_kept :
    (key v version : String) (hash : Option String) (d : List (String × String))
    → (label_config_hash == key) ≡ false
    → (label_version == key) ≡ false
    → get key d ≡ some v
    → get key (with_hash hash (put label_version version d)) ≡ some v
get_kept key v version hash d h k found =
    rw (get-with_hash key hash (put label_version version d) h)
      (rw (get-put_other key label_version version d k) found)

get-hash :
    (hash : String) (d : List (String × String))
    → is_empty hash ≡ false
    → get label_config_hash (with_hash (some hash) d) ≡ some hash
get-hash hash d h = rw h (get-put_same label_config_hash hash d)

-- Whatever labels the configuration asks for, the labels of a new container name its project and
-- service, its number and the configuration hash, as Container and the convergence plan read them.
pub get-build_container_labels :
    (str : ℕ → String) (version : String) (label_options : List (String × String))
    (s : ServiceNames) (one_off : Bool) (number : ℕ) (hash : String)
    → is_empty hash ≡ false
    → (made : List (String × String)) × (build_container_labels str version label_options
          (labels s one_off)
          number
          (some hash)
        ≡ ok made)
      × (get label_project made ≡ some s.project)
      × (get label_service made ≡ some s.name)
      × (get label_one_off made ≡ some (if one_off then "True" else "False"))
      × (get label_container_number made ≡ some (str number))
      × (get label_config_hash made ≡ some hash)
unfolding build_container_labels
get-build_container_labels str version label_options s one_off number hash h =
    let value : String = if one_off then "True" else "False" in
    let d1 = put label_project s.project label_options in
    let d2 = put label_service s.name d1 in
    let d3 = put label_one_off value d2 in
    let d4 = put label_container_number (str number) d3 in
    let of_project =
      get-put_other label_project label_container_number (str number) d3 refl
      ∙ get-put_other label_project label_one_off value d2 refl
      ∙ get-put_other label_project label_service s.name d1 refl
      ∙ get-put_same label_project s.project label_options in
    let of_service =
      get-put_other label_service label_container_number (str number) d3 refl
      ∙ get-put_other label_service label_one_off value d2 refl
      ∙ get-put_same label_service s.name d1 in
    let of_one_off =
      get-put_other label_one_off label_container_number (str number) d3 refl
      ∙ get-put_same label_one_off value d2 in
    (
      with_hash (some hash) (put label_version version d4),
      rw (traverse-labels s one_off) refl,
      get_kept label_project s.project version (some hash) d4 refl refl of_project,
      get_kept label_service s.name version (some hash) d4 refl refl of_service,
      get_kept label_one_off value version (some hash) d4 refl refl of_one_off,
      get_kept label_container_number (str number) version (some hash) d4 refl refl
          (get-put_same label_container_number (str number) d3),
      get-hash hash (put label_version version d4) h,
    )

format_env-parse :
    (key : String) (value : Option String)
    → has_char b'=' key ≡ false
    → parse_env (format_env (key, value)) (split_once b'=' (format_env (key, value))) ≡ (key, value)
format_env-parse key none h = rw (split_once-none b'=' key h) refl
format_env-parse key (some value) h = rw (split-equation key value h) refl

parse-format :
    (env : List (String × Option String))
    → All (λ e. has_char b'=' e.0 ≡ false) env
    → map (λ var. parse_env var (split_once b'=' var)) (map format_env env) ≡ env
parse-format [] h = refl
parse-format ((key, value) ∷ env) h =
    rw (format_env-parse key value h.0) (ap (λ rest. (key, value) ∷ rest) (parse-format env h.1))

-- The environment of a container that was created with the environment of a service is that
-- environment, where no variable's name has an equals sign.
pub environment-format :
    (c : Container) (env : List (String × Option String))
    → c.env ≡ format_environment env
    → All (λ e. has_char b'=' e.0 ≡ false) env
    → environment c ≡ update [] env
unfolding environment format_environment
environment-format c env h plain =
    ap (λ vars. update [] (map (λ var. parse_env var (split_once b'=' var)) vars)) h
    ∙ ap (update []) (parse-format env plain)
