-- ===== src/Config/Environment.antt =====
-- compose/config/environment.py: environment files, and the mapping that variables are read from.
-- `upper` is `str.upper` and `strip` is `str.strip`; `is_windows` is IS_WINDOWS_PLATFORM.
pub mod Missing
pub mod Samples
use docke_compose_customize.Prelude.{
  String, Bool, true, false, not, ◌&&◌, ◌||◌, Option, none, some, List, [], ◌∷◌, ◌++◌, ◌==◌,
  string_eq, elem, is_empty, starts_with, if◌then◌else◌,
}
use docke_compose_customize.Result.{Error, Result, ok, err, no_env_file, not_a_file}
use docke_compose_customize.Container.{get, put, update}
use docke_compose_customize.Config.Merge.{split_env}

-- What the file system says of a path: `os.path.exists`, `os.path.isfile` and the lines.
pub data EnvFile : Type 0 where
  absent directory : EnvFile
  file : List String → EnvFile

module _ (strip : String → String) where
  -- one round of the loop over the lines
  abbrev pub read_line : List (String × Option String) → String → List (String × Option String)
  read_line env line =
      if not (is_empty line) && not (starts_with line "#")
      then put (split_env line).0 (split_env line).1 env
      else env

  unfoldable pub read_lines :
      List (String × Option String) → List String → List (String × Option String)
  read_lines env [] = env
  read_lines env (line ∷ lines) = read_lines (read_line env (strip line)) lines

  unfoldable pub env_vars_from_file : String → EnvFile → Result (List (String × Option String))
  unfolding read_lines
  env_vars_from_file filename absent = err (no_env_file filename)
  env_vars_from_file filename directory = err (not_a_file filename)
  env_vars_from_file filename (file lines) = ok (read_lines [] lines)

  abbrev pub or_empty : Result (List (String × Option String)) → List (String × Option String)
  or_empty (ok env) = env
  or_empty (err e) = []

  -- `from_env_file`: the file .env of the directory, overridden by the process's variables
  unfoldable pub from_env_file :
      Option (String × EnvFile) → List (String × Option String) → List (String × Option String)
  from_env_file none os_environ = update [] os_environ
  from_env_file (some (path, env_file)) os_environ =
      update (or_empty (env_vars_from_file path env_file)) os_environ

pub record Environment : Type 0 where
  pub vars : List (String × Option String)
  pub missing_keys : List String

abbrev pub has_key : String → List (String × Option String) → Bool
has_key key [] = false
has_key key ((k, v) ∷ vars) = k == key || has_key key vars

-- a missing key is noted once, and has the empty value
abbrev pub note_missing : Environment → String → Option String × Environment
note_missing e key =
    if elem key e.missing_keys
    then (some "", e)
    else (some "", record e { missing_keys = e.missing_keys ++ key ∷ [] })

abbrev pub second_try : Environment → String → Option (Option String) → Option String × Environment
second_try e key (some v) = (v, e)
second_try e key none = note_missing e key

module _ (is_windows : Bool) (upper : String → String) where
  -- `key in environment`
  unfoldable pub contains : Environment → String → Bool
  contains e key =
      if is_windows then has_key key e.vars || has_key (upper key) e.vars else has_key key e.vars

  abbrev pub first_try : Environment → String → Option (Option String) → Option String × Environment
  first_try e key (some v) = (v, e)
  first_try e key none = second_try e key (if is_windows then get (upper key) e.vars else none)

  -- `environment[key]`, with the warning that it notes
  unfoldable pub get_item : Environment → String → Option String × Environment
  get_item e key = first_try e key (get key e.vars)

  abbrev pub or_default : Option (Option String) → Option (Option String) → Option (Option String)
  or_default none default = default
  or_default (some v) default = some v

  -- `environment.get(key)`
  unfoldable pub get_value : Environment → String → Option (Option String)
  get_value e key =
      if is_windows then or_default (get key e.vars) (get (upper key) e.vars) else get key e.vars
