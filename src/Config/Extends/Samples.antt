-- ===== src/Config/Extends/Samples.antt =====
-- Two services, of which one extends the other.
use docke_compose_customize.Prelude.{
  String, ◌≡◌, ◌≢◌, refl, true, ◌&&◌, Option, none, some, option_eq, List, [], ◌∷◌, elem, ◌==◌,
  string_eq, if◌then◌else◌, arith, Bool-cases, inl, inr,
}
use docke_compose_customize.Result.{Signature, Result, ok, err, diverged, no_env_file, Outcome}
use docke_compose_customize.Config.Value.{Fields, str, end, field, update_fields}
use docke_compose_customize.Config.Extends.{
  ServiceConfig, signature, signature_eq, Files, absolute, run, extended, merge_extended,
  extends_options, get_extended_config_path, with_abs_paths, validate_extended_service_dict,
}
use docke_compose_customize.Config.Extends.Chain.{Resolves, run_lem}

abbrev load : Option String → String → Result Fields
load path name =
    if path == some "/a.yml" && name == "base"
    then ok (field "image" (str "busybox") end)
    else err (no_env_file name)

abbrev files : Files
files = record {
  abspath = λ path. path;
  dirname = λ path. "/";
  expand_path = λ dir path. path;
  load = load;
  process_service = λ c. ok c.config;
  merge_service_dicts = λ base override. ok (update_fields base override);
}

abbrev web : ServiceConfig
web = record {
  working_dir = "/";
  filename = some "/a.yml";
  name = "web";
  config = field "extends" (str "base") end;
}

abbrev universe : List Signature
universe =
    record { filename = some "/a.yml"; name = "web" }
    ∷ record { filename = some "/a.yml"; name = "base" }
    ∷ []

web_extended :
    run files 3 [] web
    ≡ ok (record web { config = field "image" (str "busybox") (field "extends" (str "base") end) })
unfolding run extended merge_extended extends_options get_extended_config_path with_abs_paths
    validate_extended_service_dict signature
web_extended = refl

load-finite :
    (path : Option String) (name : String) (d : Fields)
    → load path name ≡ ok d
    → elem (record { filename = absolute files path; name = name }) universe ≡ true
load-finite none name d h = cc
load-finite (some path) name d h = elim (Bool-cases (path == "/a.yml")) [
  | inl same ↦ elim (Bool-cases (name == "base")) [
    | inl named ↦
        rw ((string_eq.beq_iff path "/a.yml").0 same)
          (rw ((string_eq.beq_iff name "base").0 named) refl)
    | inr other ↦ absurd (ground (arith, same, other))
  ]
  | inr other ↦ absurd (ground (arith, other))
]

load-reads : (path : Option String) (name : String) → load path name ≢ err diverged
load-reads path name same = ground arith

signature-web : elem (signature web) universe ≡ true
unfolding signature
signature-web = refl

run_lem_example : Outcome (Resolves files web) (run files 3 [] web)
run_lem_example =
    run_lem files universe web load-finite load-reads (λ c same. cc) (λ base override same. cc)
      signature-web
