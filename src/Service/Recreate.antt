-- ===== src/Service/Recreate.antt =====
-- Creating, starting and recreating containers, and carrying out a plan.
use docke_compose_customize.Prelude.{
  ℕ, zero, suc, String, Bool, not, Option, none, some, List, [], ◌∷◌, string_eq, elem,
  if◌then◌else◌, join,
}
use docke_compose_customize.Container.{Container, has_api_logs, get}
use docke_compose_customize.Service.{Action, create, recreate, start, noop, ConvergencePlan}
use docke_compose_customize.Service.Images.{ImageOptions, ensure_image_exists, inspect}
use docke_compose_customize.Service.Images.BuildAction.{no_action}
use docke_compose_customize.Service.Client.{Call, Daemon, M, pure, ◌>>=◌, ◌>>◌, for_each, call}

-- `self.id[:12]`
abbrev first_chars : ℕ → String → String
first_chars zero s = ""
first_chars (suc n) String.[] = ""
first_chars (suc n) (String.◌∷◌ c s) = String.◌∷◌ c (first_chars n s)

unfoldable pub short_id : Container → String
short_id c = first_chars 12 c.id

-- What of a service matters to its containers: the networks to join, the name of a new container,
-- and the services whose containers its options name. `connected` are a container's networks with
-- its aliases in them, and `image_of` is its image.
pub record ServiceState : Type 0 where
  pub networks : List String
  pub container_name : String
  pub image_options : ImageOptions
  pub option_sources : List String
  pub image_of : Container → String
  pub connected : Container → List (String × List String)

module _ (daemon : Daemon) where
  abbrev pub list_containers : String → M Unit
  list_containers service = call daemon (Call.list_containers service)

module _ (daemon : Daemon) (s : ServiceState) where
  unfoldable pub rename_to_tmp_name : Container → M Unit
  rename_to_tmp_name c = call daemon (Call.rename c.id (join "_" (short_id c ∷ c.name ∷ [])))

  unfoldable pub attach_log_stream : Container → M Unit
  attach_log_stream c = if has_api_logs c then call daemon (Call.attach c.id) else pure tt

  abbrev pub reconnect : Container → String → M Unit
  reconnect c network = call daemon (Call.connect c.id network)

  abbrev pub connect_again : Container → String → Option (List String) → M Unit
  connect_again c network none = reconnect c network
  connect_again c network (some aliases) =
      if elem (short_id c) aliases
      then pure tt
      else call daemon (Call.disconnect c.id network) >> reconnect c network

  -- one round of the loop of `connect_container_to_networks`
  unfoldable pub connect_network : Container → String → M Unit
  connect_network c network = connect_again c network (get network (s.connected c))

  unfoldable pub start_container : Container → M Container
  unfolding connect_network short_id
  start_container c = do
    for_each (connect_network c) s.networks
    call daemon (Call.start c.id)
    pure c

  unfoldable pub start_container_if_stopped : Bool → Container → M Unit
  unfolding start_container attach_log_stream
  start_container_if_stopped attach_logs c =
      if not c.is_running
      then (do
        if attach_logs then attach_log_stream c else pure tt
        started ← start_container c
        pure tt)
      else pure tt

  -- the image of the container whose volumes are kept
  abbrev pub inspect_previous : Option Container → M Unit
  inspect_previous none = pure tt
  inspect_previous (some c) = call daemon (Call.inspect_image (s.image_of c))

  -- `create_container` without options that override, given the previous container: the image is
  -- ensured, that of the previous container is inspected, and the image for the configuration hash;
  -- the containers of the services that are linked or whose volumes are mounted are listed; then
  -- Container.create makes two calls. The number is given, or taken from a list that is no call here,
  -- and a service that volumes are mounted from has a container, where the program would create one.
  unfoldable pub create_new : Option Container → M Container
  create_new previous = do
    ensure_image_exists daemon s.image_options no_action
    inspect_previous previous
    inspect daemon s.image_options
    for_each (list_containers daemon) s.option_sources
    call daemon (Call.create_container s.container_name)
    new ← (λ log. pure (daemon.created log) log)
    call daemon (Call.inspect_container new.id)
    pure new

  unfoldable pub recreate_container : Bool → Bool → Container → M Container
  unfolding rename_to_tmp_name create_new attach_log_stream start_container
  recreate_container attach_logs start_new c = do
    call daemon (Call.stop c.id)
    rename_to_tmp_name c
    new ← create_new (some c)
    if attach_logs then attach_log_stream new else pure tt
    if start_new then (start_container new >> pure tt) else pure tt
    call daemon (Call.remove c.id)
    pure new

  abbrev pub collect : (Container → M Container) → List Container → M (List Container)
  collect f [] = pure []
  collect f (c ∷ cs) = do new ← f c; rest ← collect f cs; pure (new ∷ rest)

  -- the branches on `action`
  abbrev pub execute : Bool → Bool → Action → List Container → M (List Container)
  unfolding recreate_container start_container_if_stopped create_new
  execute attach_logs start_it create containers = do
    new ← create_new none
    if attach_logs then attach_log_stream new else pure tt
    if start_it then (start_container new >> pure tt) else pure tt
    pure (new ∷ [])
  execute attach_logs start_it recreate containers =
      collect (recreate_container attach_logs start_it) containers
  execute attach_logs start_it start containers = do
    if start_it then for_each (start_container_if_stopped attach_logs) containers else pure tt
    pure containers
  execute attach_logs start_it noop containers = pure containers

  unfoldable pub execute_convergence_plan : ConvergencePlan → Bool → Bool → M (List Container)
  execute_convergence_plan p detached start_it =
      execute (not detached) start_it p.action p.containers
