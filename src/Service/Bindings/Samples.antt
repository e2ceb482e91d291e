-- ===== src/Service/Bindings/Samples.antt =====
-- The volume of a database that is created again.
use docke_compose_customize.Prelude.{refl, none, some, false, [], ◌∷◌}
use docke_compose_customize.Result.{Returns}
use docke_compose_customize.Container.{get}
use docke_compose_customize.Config.Volumes.{OsPath, VolumeSpec}
use docke_compose_customize.Service.Bindings.{Previous, Bindings, merge_volume_bindings}
use docke_compose_customize.Service.Bindings.Kept.{IsBound, merge_volume_bindings-keeps}

abbrev linux : OsPath
linux = record { is_windows = false; splitdrive = λ s. ("", s); normpath = λ s. s; lower = λ s. s }

abbrev old_database : Previous
old_database = record {
  container = record {
    id = "abc";
    name = "app_db_1";
    labels = [];
    is_running = false;
    is_restarting = false;
    is_paused = false;
    is_ghost = false;
    exit_code = "0";
    log_driver = none;
    env = [];
    entrypoint = [];
    cmd = [];
    created = 0;
  };
  mounts = ("/data", some "1f2e") ∷ [];
  image_volumes = [];
}

abbrev data_path : VolumeSpec
data_path = record { external = none; internal = "/data"; mode = "rw" }

merge_volume_bindings-keeps_example :
    Returns
      (λ (b : Bindings). IsBound "1f2e" "/data" (get "/data" b.volume_bindings))
      (merge_volume_bindings linux (λ vs. vs) (data_path ∷ []) (some old_database))
merge_volume_bindings-keeps_example =
    merge_volume_bindings-keeps linux (λ vs. vs) old_database (λ p vs. refl) (data_path ∷ []) []
      refl "/data" "1f2e" refl refl refl
