-- ===== src/Container.antt =====
-- compose/container.py and the parts of compose/const.py that it reads.
-- An inspected container is a record of the fields that are read; `int` is a parameter.
pub mod Dict
use docke_compose_customize.Prelude.{
  ℕ, String, Bool, true, ◌&&◌, ◌||◌, not, Option, none, some, List, [], ◌∷◌, ◌==◌, string_eq,
  nat_eq, ◌++◌, map, if◌then◌else◌, concat, join, is_empty, split, split_once, starts_with, length,
  ltb,
}
use docke_compose_customize.Result.{Result, ok, err, value_error}

abbrev pub label_container_number : String
label_container_number = "com.docker.compose.container-number"

abbrev pub label_one_off : String
label_one_off = "com.docker.compose.oneoff"

abbrev pub label_project : String
label_project = "com.docker.compose.project"

abbrev pub label_service : String
label_service = "com.docker.compose.service"

abbrev pub label_version : String
label_version = "com.docker.compose.version"

abbrev pub label_config_hash : String
label_config_hash = "com.docker.compose.config-hash"

pub record Container : Type 0 where
  pub id : String
  pub name : String
  pub labels : List (String × String)
  pub is_running : Bool
  pub is_restarting : Bool
  pub is_paused : Bool
  pub is_ghost : Bool
  pub exit_code : String
  pub log_driver : Option String
  pub env : List String
  pub entrypoint : List String
  pub cmd : List String
  pub created : ℕ

-- `d.get(key)` of a dictionary of labels
module _ {ℓ} {V : Type ℓ} where
  abbrev pub get : String → List (String × V) → Option V
  get key [] = none
  get key ((k, v) ∷ rest) = let found = get key rest in if k == key then some v else found

  -- `d[key] = v`
  abbrev pub put : String → V → List (String × V) → List (String × V)
  put key v [] = (key, v) ∷ []
  put key v ((k, w) ∷ rest) =
      let tail = put key v rest in if k == key then (key, v) ∷ rest else (k, w) ∷ tail

  -- `d.update(other)`
  abbrev pub update : List (String × V) → List (String × V) → List (String × V)
  update d [] = d
  update d ((k, v) ∷ other) = update (put k v d) other

unfoldable pub service : Container → Option String
service c = get label_service c.labels

-- `'%s' % value` of an optional text
abbrev show_option : Option String → String
show_option none = "None"
show_option (some s) = s

module _ (int : String → Option ℕ) (str : ℕ → String) where
  abbrev read_number : Container → Option String → Result ℕ
  read_number c none = err (value_error c.id)
  read_number c (some text) =
      if is_empty text
      then err (value_error c.id)
      else elim (int text) [ none ↦ err (value_error text) | some n ↦ ok n ]

  unfoldable pub number : Container → Result ℕ
  number c = read_number c (get label_container_number c.labels)

  abbrev numbered : Option String → Result ℕ → Result String
  numbered service (ok n) = ok (join "_" (show_option service ∷ str n ∷ []))
  numbered service (err e) = err e

  unfoldable pub name_without_project : Container → Result String
  unfolding service number
  name_without_project c =
      if starts_with c.name
        (join "_" (show_option (get label_project c.labels) ∷ show_option (service c) ∷ []))
      then numbered (service c) (number c)
      else ok c.name

unfoldable pub human_readable_state : Container → String
human_readable_state c =
    if c.is_paused
    then "Paused"
    else if c.is_restarting
    then "Restarting"
    else if c.is_running
    then (if c.is_ghost then "Ghost" else "Up")
    else concat "Exit " c.exit_code

unfoldable pub human_readable_command : Container → String
human_readable_command c = join " " (c.entrypoint ++ c.cmd)

-- `not log_type or log_type != 'none'`
unfoldable pub has_api_logs : Container → Bool
has_api_logs c = elim c.log_driver [
  | none ↦ true
  | some log_type ↦ is_empty log_type || not (log_type == "none")
]

-- parse_env of `environment`
abbrev pub parse_env : String → Option (String × String) → String × Option String
parse_env var none = (var, none)
parse_env var (some (k, v)) = (k, some v)

unfoldable pub environment : Container → List (String × Option String)
environment c = update [] (map (λ var. parse_env var (split_once b'=' var)) c.env)

-- The dictionary that GET /containers/json or an inspection returns.
pub record ContainerJson : Type 0 where
  pub inspected_name : Option String
  pub names : List String

-- `min(names, key=lambda n: len(n.split('/')))`: the first of the shortest
abbrev shortest : String → List String → String
shortest best [] = best
shortest best (n ∷ ns) =
    shortest (if ltb (length (split b'/' n)) (length (split b'/' best)) then n else best) ns

-- `parts[-1]`
abbrev last_part : List String → String
last_part [] = ""
last_part (p ∷ []) = p
last_part (p ∷ q ∷ rest) = last_part (q ∷ rest)

abbrev name_of_ps : List String → Option String
name_of_ps [] = none
name_of_ps (n ∷ ns) = some (last_part (split b'/' (shortest n ns)))

unfoldable pub get_container_name : ContainerJson → Option String
get_container_name c = elim c.inspected_name [
  | some name ↦ if is_empty name && length c.names == 0 then none else some name
  | none ↦ name_of_ps c.names
]
