-- ===== src/Service.antt =====
-- compose/service.py: what has to happen to the containers of a service.
-- The containers are what the Docker client reports; the configuration hash is `none` where
-- computing it raises NoSuchImageError.
pub mod Convergence
pub mod Client
pub mod Calls
pub mod Kept
pub mod Recreate
pub mod Calm
pub mod Removal
pub mod Images
pub mod Scale
pub mod Names
pub mod Bindings
pub mod Modes
pub mod Samples
use docke_compose_customize.Prelude.{
  ℕ, String, Bool, true, false, not, ◌&&◌, ◌||◌, Option, none, some, List, [], ◌∷◌, ◌==◌, string_eq,
  option_eq, filter, any, elem, if◌then◌else◌,
}
use docke_compose_customize.Container.{Container, get, label_config_hash}

pub data ConvergenceStrategy : Type 0 where
  changed always never : ConvergenceStrategy

unfoldable pub allows_recreate : ConvergenceStrategy → Bool
allows_recreate never = false
allows_recreate _ = true

pub data Action : Type 0 where
  create recreate start noop : Action

pub record ConvergencePlan : Type 0 where
  pub action : Action
  pub containers : List Container

abbrev pub plan : Action → List Container → ConvergencePlan
plan action containers = record { action = action; containers = containers }

-- the loop of `_containers_have_diverged`, with its flag
any_diverged : Option String → Bool → List Container → Bool
any_diverged config_hash has_diverged [] = has_diverged
any_diverged config_hash has_diverged (c ∷ cs) =
    any_diverged config_hash
      (if get label_config_hash c.labels == config_hash then has_diverged else true) cs

unfoldable pub containers_have_diverged : Option String → List Container → Bool
unfolding any_diverged
containers_have_diverged none containers = true
containers_have_diverged (some config_hash) containers =
    any_diverged (some config_hash) false containers

abbrev is_always : ConvergenceStrategy → Bool
is_always always = true
is_always _ = false

abbrev is_never : ConvergenceStrategy → Bool
is_never never = true
is_never _ = false

-- `if stopped`
pub start_or_noop : List Container → List Container → ConvergencePlan
start_or_noop containers [] = plan noop containers
start_or_noop containers (c ∷ stopped) = plan start (c ∷ stopped)

unfoldable pub convergence_plan :
    Option String → List Container → ConvergenceStrategy → ConvergencePlan
convergence_plan config_hash [] strategy = plan create []
convergence_plan config_hash (c ∷ cs) strategy =
    let containers = c ∷ cs in
    if is_never strategy
    then plan start containers
    else if is_always strategy || containers_have_diverged config_hash containers
    then plan recreate containers
    else start_or_noop containers (filter (λ (d : Container). not d.is_running) containers)
