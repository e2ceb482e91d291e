-- ===== src/Lib.antt =====
-- docker-compose: a model of the program's own logic, and what makes it correct.
--
-- The program reads Compose files (compose/config), sorts their services by dependency, decides
-- for each service what has to happen to its containers (compose/service.py, compose/project.py)
-- and carries that out in parallel through the Docker client (compose/parallel.py).
--
--   Prelude    numbers, texts, lists, equality as an interface
--   Result     exceptions as values
--   Config     compose/config:
--                Value          the values of a Compose file
--                Interpolation  interpolation.py: variables in values
--                Environment    environment.py: files of variables, and which variables are missing
--                Extends        config.py: ServiceExtendsResolver
--                Files          config.py: versions, the search for files, several files
--                Validation     validation.py: the checks that are written out
--                Merge          config.py, environment.py: merging a service with the one it extends
--                SortServices   sort_services.py: the order of the services
--                Types          types.py: VolumeFromSpec, ServiceLink, restart policies
--                Volumes        types.py: VolumeSpec
--   Container  compose/container.py: what is read of a container
--   Service    compose/service.py:
--                Convergence    convergence_plan
--                Client         the calls of the Docker client; Calls: rules for them
--                Images         ensure_image_exists, pull, build, remove_image
--                Recreate       recreate_container, execute_convergence_plan
--                Calm, Removal  when a recreated container is removed
--                Scale          scale, duplicate_containers; Balance: how many are started
--                Names          names, labels, environment
--                Bindings       the volumes that are kept when a container is created again
--                Modes          network modes, and the services that a service depends on
--   Project    compose/project.py: the services of a project; Plans: _get_convergence_plans
--                Build          from_config, with links, network modes and volumes_from
--                Services       get_services, with the services that these depend on; Needs: which
--   Volume     compose/volume.py: Volume, ProjectVolumes; Namespace: namespace_spec
--   Network    compose/network.py: get_networks; Managed: Network, ProjectNetworks
--   Utils      compose/utils.py: stream_as_text, split_buffer and two small helpers
--   Parallel   compose/parallel.py: parallel_execute_iter, feed_queue and the producer threads;
--                Collect        what parallel_execute returns or raises
--                Writer         ParallelStreamWriter, and what a terminal shows of it
--
-- Python's texts are native strings, walked character by character. A dictionary that is read at
-- fixed keys is a record; an exception is an `Error` with the values of its message. Fuel
-- bounds the recursion of `visit` of sort_services.py (one more than there are services), the loop of
-- split_buffer (one more than the buffer is long), the resolver of `extends` (one more than the files
-- have services), get_services (one more than the rank of a service) and the search for files (one
-- more than the depth of the directory): each of these uses up at least one unit a round.
-- The threads of parallel.py are a step relation: any interleaving of the main thread and of the
-- producers is a sequence of steps, the pending objects are gone through in any order, an object
-- is a handle, and what the function does with it is open. The built-ins `int`, `str` and
-- `strip`, `upper`, `Template.substitute`, `os.path`, `ntpath`, `bytes.decode` and the Docker
-- client are parameters. So are the order of the set that merge_volume_bindings goes through
-- and, where services are extended or merged, reading a file, process_service and
-- merge_service_dicts, each of which may raise.
-- A method of service.py, volume.py or network.py that calls the client takes the calls made so far
-- and gives them back with what it returns or raises; `Daemon` is what the client answers after each
-- of them. Waiting, logging and timeouts have no part in it. scale is the choice of what to start,
-- create and stop.
-- The command line, other terminal output than that of ParallelStreamWriter, and the schema
-- validation are not modelled.
pub mod Prelude
pub mod Result
pub mod Config
pub mod Container
pub mod Network
pub mod Parallel
pub mod Project
pub mod Service
pub mod Utils
pub mod Volume
