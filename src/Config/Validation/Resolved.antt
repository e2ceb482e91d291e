-- ===== src/Config/Validation/Resolved.antt =====
-- A service that is validated refers to services of the configuration.
use docke_compose_customize.Prelude.{
  String, ◌≡◌, refl, true, false, not, ◌||◌, Option, none, some, List, [], ◌∷◌, string_eq, elem,
  all, arith, Bool-cases, inl, inr,
}
use docke_compose_customize.Result.{Result, ok, bind-ok}
use docke_compose_customize.Config.SortServices.{
  get_service_names, get_service_name_from_network_mode,
}
use docke_compose_customize.Config.Validation.{
  Ulimit, Checked, is_allowed, is_given, validate_ulimits, validate_dependency,
  validate_network_mode, validate_links, validate_depends_on, has_uppercase, validate_service,
}
use docke_compose_customize.Service.Modes.{present}

validate_ulimits-allowed :
    (name : String) (ulimits : List (String × Ulimit))
    → validate_ulimits name ulimits ≡ ok tt
    → all (λ (u : String × Ulimit). is_allowed u.1) ulimits ≡ true
unfolding validate_ulimits
validate_ulimits-allowed name [] h = refl
validate_ulimits-allowed name ((limit_name, values) ∷ ulimits) h =
    ground (arith, validate_ulimits-allowed name ulimits, h)

validate_links-known :
    (service_names : List String) (name : String) (links : List String)
    → validate_links service_names name links ≡ ok tt
    → all (λ n. elem n service_names) (get_service_names links) ≡ true
unfolding validate_links get_service_names
validate_links-known service_names name [] h = refl
validate_links-known service_names name (link ∷ links) h =
    ground (arith, validate_links-known service_names name links, h)

validate_depends_on-known :
    (service_names : List String) (name : String) (depends_on : List String)
    → validate_depends_on service_names name depends_on ≡ ok tt
    → all (λ n. elem n service_names) depends_on ≡ true
unfolding validate_depends_on
validate_depends_on-known service_names name [] h = refl
validate_depends_on-known service_names name (d ∷ depends_on) h =
    ground (arith, validate_depends_on-known service_names name depends_on, h)

validate_dependency-known :
    (service_names : List String) (name : String) (dep : Option String)
    → validate_dependency service_names name dep ≡ ok tt
    → all (λ n. elem n service_names) (present dep) ≡ true
validate_dependency-known service_names name none h = refl
validate_dependency-known service_names name (some dep) h = ground (arith, h)

no_mode-no_service :
    (mode : Option String) → is_given mode ≡ false → get_service_name_from_network_mode mode ≡ none
unfolding get_service_name_from_network_mode
no_mode-no_service none h = refl
no_mode-no_service (some mode) h = ground (arith, h)

validate_network_mode-known :
    (service_names : List String) (c : Checked)
    → validate_network_mode service_names c ≡ ok tt
    → all
        (λ n. elem n service_names)
        (present (get_service_name_from_network_mode c.dict.network_mode))
      ≡ true
unfolding validate_network_mode
validate_network_mode-known service_names c h = elim (Bool-cases (is_given c.dict.network_mode)) [
  | inr absent ↦ rw (no_mode-no_service c.dict.network_mode absent) refl
  | inl given ↦
      validate_dependency-known service_names c.dict.name
        (get_service_name_from_network_mode c.dict.network_mode) (ground (arith, given, h))
]

not_combined :
    (service_names : List String) (c : Checked)
    → validate_network_mode service_names c ≡ ok tt
    → (not (is_given c.dict.network_mode) || not c.has_networks) ≡ true
unfolding validate_network_mode
not_combined service_names c h = ground (arith, h)

-- A service that passes validation refers, by its links, its network mode and depends_on, to
-- services of the names alone, and it has not both a network mode and networks; no soft limit of it
-- is above the hard one, and it has an image or a name without capital letters.
pub validate_service-IsKnown :
    (constraints paths : Checked → Result (Unit {0})) (service_names : List String) (c : Checked)
    → validate_service constraints paths service_names c ≡ ok tt
    → (all (λ n. elem n service_names) (get_service_names c.dict.links) ≡ true)
      × (all
            (λ n. elem n service_names)
            (present (get_service_name_from_network_mode c.dict.network_mode))
          ≡ true)
      × (all (λ n. elem n service_names) c.dict.depends_on ≡ true)
      × ((not (is_given c.dict.network_mode) || not c.has_networks) ≡ true)
      × (all (λ (u : String × Ulimit). is_allowed u.1) c.ulimits ≡ true)
      × ((is_given c.image || not (has_uppercase c.dict.name)) ≡ true)
unfolding validate_service
validate_service-IsKnown constraints paths service_names c h =
    let (u1, e1, h1) = bind-ok (constraints c) _ tt h in
    let (u2, e2, h2) = bind-ok (paths c) _ tt h1 in
    let (u3, limits, h3) = bind-ok (validate_ulimits c.dict.name c.ulimits) _ tt h2 in
    let (u4, mode, h4) = bind-ok (validate_network_mode service_names c) _ tt h3 in
    let (u5, depends, h5) =
      bind-ok (validate_depends_on service_names c.dict.name c.dict.depends_on) _ tt h4 in
    let (u6, links, h6) = bind-ok (validate_links service_names c.dict.name c.dict.links) _ tt h5 in
    (
      validate_links-known service_names c.dict.name c.dict.links links,
      validate_network_mode-known service_names c mode,
      validate_depends_on-known service_names c.dict.name c.dict.depends_on depends,
      not_combined service_names c mode,
      validate_ulimits-allowed c.dict.name c.ulimits limits,
      ground (arith, h6),
    )
