-- ===== src/Volume/Samples.antt =====
-- Two volumes and a client to evaluate the model on.
use docke_compose_customize.Prelude.{◌≡◌, refl, true, false, Option, none, some, List, [], ◌∷◌, all}
use docke_compose_customize.Result.{Error, not_found, ok}
use docke_compose_customize.Container.{Container}
use docke_compose_customize.Service.Client.{Call, Daemon, call}
use docke_compose_customize.Volume.{
  Volume, full_name, is_external, create, inspect, exists, initialize_volume, initialize,
  remove_all,
}
use docke_compose_customize.Service.Kept.{Made}
use docke_compose_customize.Volume.Owned.{keeps, initialize-keeps, remove_all-keeps}

abbrev data_volume : Volume
data_volume = record { project = "p"; name = "data"; driver = none; external_name = none }

abbrev shared_volume : Volume
shared_volume = record { project = "p"; name = "old"; driver = none; external_name = some "shared" }

abbrev pub empty_container : Container
empty_container = record {
  id = "";
  name = "";
  labels = [];
  is_running = false;
  is_restarting = false;
  is_paused = false;
  is_ghost = false;
  exit_code = "0";
  log_driver = none;
  env = [];
  entrypoint = [];
  cmd = [];
  created = 0;
}

abbrev pub missing_first : List Call → Option Error
missing_first (c ∷ []) = some not_found
missing_first log = none

-- a client that knows no volume of the project's own on its first call
abbrev pub client : Daemon
client = record {
  fails = λ log. missing_first log;
  built = λ log. none;
  driver = λ log. "local";
  created = λ log. empty_container;
}

initialize_two : initialize client (data_volume ∷ shared_volume ∷ []) [] ≡ (
  ok tt,
  Call.inspect_volume "p_data" ∷ Call.create_volume "p_data" ∷ Call.inspect_volume "shared" ∷ [],
)
unfolding initialize initialize_volume exists inspect create full_name is_external call
initialize_two = refl

initialize-keeps_example :
    Made
      (λ calls. all (keeps (data_volume ∷ shared_volume ∷ [])) calls ≡ true)
      []
      (initialize client (data_volume ∷ shared_volume ∷ []) []).0
      (initialize client (data_volume ∷ shared_volume ∷ []) []).1
initialize-keeps_example = initialize-keeps client (data_volume ∷ shared_volume ∷ []) []

remove_all-keeps_example :
    Made
      (λ calls. all (keeps (data_volume ∷ shared_volume ∷ [])) calls ≡ true)
      []
      (remove_all client (data_volume ∷ shared_volume ∷ []) []).0
      (remove_all client (data_volume ∷ shared_volume ∷ []) []).1
remove_all-keeps_example = remove_all-keeps client (data_volume ∷ shared_volume ∷ []) []
