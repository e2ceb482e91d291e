-- ===== src/Service/Images.antt =====
-- The image of a service: ensure_image_exists, image, pull, build and remove_image.
use docke_compose_customize.Prelude.{
  String, Bool, true, false, not, ◌&&◌, Option, none, some, [], ◌∷◌, is_empty, has_char,
  rsplit_once, join, if◌then◌else◌,
}
use docke_compose_customize.Result.{
  Error, Result, ok, err, no_such_image, api_error, stream_error, needs_build, build_failed,
}
use docke_compose_customize.Service.Client.{Call, Daemon, M, pure, raise, ◌>>◌, call}

pub data BuildAction : Type 0 where
  -- `none` of the source
  no_action force skip : BuildAction

pub data ImageType : Type 0 where
  -- `none` of the source
  no_type local all : ImageType

-- The project, the service's name and the options that say where its image comes from.
pub record ImageOptions : Type 0 where
  pub project : String
  pub name : String
  pub image : Option String
  pub has_build : Bool

abbrev repository : Option (String × String) → String → String → String × String × String
repository none repo_path separator = (repo_path, "", separator)
repository (some (repo, tag)) repo_path separator =
    if has_char b'/' tag then (repo_path, "", separator) else (repo, tag, separator)

abbrev digest : Option (String × String) → String → String × String × String
digest none repo_path = repository (rsplit_once b':' repo_path) repo_path ":"
digest (some (repo, tag)) repo_path = (repo, tag, "@")

unfoldable pub parse_repository_tag : String → String × String × String
parse_repository_tag repo_path = digest (rsplit_once b'@' repo_path) repo_path

unfoldable pub image_name : ImageOptions → String
image_name options = elim options.image [
  | none ↦ join "_" (options.project ∷ options.name ∷ [])
  | some image ↦ image
]

abbrev pub is_force : BuildAction → Bool
is_force force = true
is_force _ = false

abbrev pub is_no_such_image : Error → Bool
is_no_such_image no_such_image = true
is_no_such_image e = false

abbrev is_skip : BuildAction → Bool
is_skip skip = true
is_skip _ = false

module _ (daemon : Daemon) (options : ImageOptions) where
  unfoldable pub inspect : M Unit
  unfolding image_name
  inspect = call daemon (Call.inspect_image (image_name options))

  abbrev pub pull_image : String × String × String → M Unit
  pull_image (repo, tag, separator) =
      call daemon (Call.pull repo (if is_empty tag then "latest" else tag))

  abbrev pub ignored : Bool → Result (Unit {0}) → Result (Unit {0})
  ignored true (err stream_error) = ok tt
  ignored ignore_pull_failures r = r

  abbrev pub pull_option : Bool → Option String → M Unit
  pull_option ignore_pull_failures none log = pure tt log
  pull_option ignore_pull_failures (some image) log =
      let (r, log') = pull_image (parse_repository_tag image) log in
      (ignored ignore_pull_failures r, log')

  unfoldable pub pull : Bool → M Unit
  pull ignore_pull_failures = pull_option ignore_pull_failures options.image

  -- a StreamOutputError becomes a BuildError
  abbrev pub build_error : Error → Error
  build_error stream_error = build_failed options.name
  build_error e = e

  abbrev pub image_id : Result (Unit {0}) → Option String → Result String
  image_id (err e) id = err (build_error e)
  image_id (ok r) none = err (build_failed options.name)
  image_id (ok r) (some id) = ok id

  unfoldable pub build : M String
  unfolding image_name
  build log =
      let (r, log') = call daemon (Call.build (image_name options)) log in
      (image_id r (daemon.built log'), log')

  unfoldable pub built : M Unit
  unfolding build
  built = build >> pure tt

  -- what is left to do when the image is inspected
  abbrev pub provide : BuildAction → Result (Unit {0}) → M Unit
  provide do_build (ok found) = pure tt
  provide do_build (err e) =
      if is_no_such_image e
      then (if not options.has_build
          then pull false
          else if is_skip do_build
          then raise (needs_build options.name)
          else built)
      else raise e

  unfoldable pub ensure_image_exists : BuildAction → M Unit
  unfolding inspect
  ensure_image_exists do_build = if options.has_build && is_force do_build then built else λ log.
      (let (r, log') = inspect log in provide do_build r log')

  -- an APIError is logged, and the answer is False
  abbrev removed : Result (Unit {0}) → Result Bool
  removed (ok r) = ok true
  removed (err api_error) = ok false
  removed (err no_such_image) = ok false
  removed (err e) = err e

  -- `options.get('image')` is a name that is not empty
  abbrev has_image : Option String → Bool
  has_image none = false
  has_image (some image) = not (is_empty image)

  abbrev pub remove_it : M Bool
  unfolding image_name
  remove_it log =
      let (r, log') = call daemon (Call.remove_image (image_name options)) log in (removed r, log')

  unfoldable pub remove_image : ImageType → M Bool
  remove_image no_type = pure false
  remove_image local = if has_image options.image then pure false else remove_it
  remove_image all = remove_it
