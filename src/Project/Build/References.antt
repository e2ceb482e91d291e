-- ===== src/Project/Build/References.antt =====
-- What a service refers to is found where the services that it names have been made.
use Prim.Native.Char.{Char, code}
use docke_compose_customize.Prelude.{
  ℕ, String, ◌≡◌, refl, ap, sym, subst, ◌∙◌, Bool, true, false, not, ◌&&◌, ◌||◌, Option, none, some,
  List, [], ◌∷◌, map, ◌==◌, string_eq, nat_beq, all, elem, on_first, on_head, split, split_once,
  arith, Bool-cases, inl, inr,
}
use docke_compose_customize.Result.{ok}
use docke_compose_customize.Container.{Container}
use docke_compose_customize.Config.Types.{VolumeFromSpec}
use docke_compose_customize.Config.SortServices.{
  ServiceDict, first_part, get_service_names, get_service_name_from_network_mode,
  get_container_name_from_network_mode,
}
use docke_compose_customize.Service.Modes.{
  service_name, present, VolumeFrom, source_name, source_names, ServiceObject,
}
use docke_compose_customize.Project.Build.{
  is_present, text_of, find_service, link_of, linked, get_links, container_mode, first_network,
  get_network_mode, from_container, build_volume_from,
}
use docke_compose_customize.Project.Build.Fine.{Fine, Fine-map, traverse-Fine, all-map, all-append}

target-longer :
    (c : Char) (s : String) (found : Option (String × String)) (parts : List String)
    → (link_of s found).0 ≡ first_part parts
    → (link_of (String.◌∷◌ c s) (on_first (String.◌∷◌ c) found)).0 ≡ first_part (on_head c parts)
target-longer c s none [] h = ap (String.◌∷◌ c) h
target-longer c s none (p ∷ parts) h = ap (String.◌∷◌ c) h
target-longer c s (some (a, b)) [] h = ap (String.◌∷◌ c) h
target-longer c s (some (a, b)) (p ∷ parts) h = ap (String.◌∷◌ c) h

-- the name that a link is resolved by is the one that the services are sorted by
link_target :
    (sep : ℕ) (link : String) → (link_of link (split_once sep link)).0 ≡ first_part (split sep link)
unfolding split_once split
link_target sep String.[] = refl
link_target sep (String.◌∷◌ c s) = elim (Bool-cases (nat_beq (code c) sep)) [
  | inl here ↦ rw here refl
  | inr later ↦ rw later (target-longer c s (split_once sep s) (split sep s) (link_target sep s))
]

abbrev pub is_found : Option Container → Bool
is_found none = false
is_found (some c) = true

-- the source of a volumes_from specification is a service of the names, or a container
abbrev pub has_source : (String → Option Container) → List String → VolumeFromSpec → Bool
has_source find names v =
    (v.type == "service" && elem v.source names)
    || (not (v.type == "service") && v.type == "container" && is_found (find v.source))

-- the services that a service refers to are among the names
abbrev pub is_resolved : (String → Option Container) → List String → ServiceDict → Bool
is_resolved find names d =
    all (λ n. elem n names) (get_service_names d.links)
    && all (has_source find names) d.volumes_from
    && all (λ n. elem n names) (present (get_service_name_from_network_mode d.network_mode))
    && all (λ n. elem n names) d.depends_on

module _ {Definition : Type 0} where
  abbrev pub object_names : List (ServiceObject Definition) → List String
  object_names services = map (λ (s : ServiceObject Definition). s.name) services

  find_service-found :
      (services : List (ServiceObject Definition)) (name : String)
      → elem name (object_names services) ≡ true
      → find_service services name ≡ ok name
  unfolding find_service
  find_service-found [] name h = absurd (ground arith)
  find_service-found (s ∷ services) name h = elim (Bool-cases (s.name == name)) [
    | inl same ↦ rw same refl
    | inr other ↦ rw other (find_service-found services name (ground arith))
  ]

  abbrev pub Known : List (ServiceObject Definition) → List String → Type 0
  Known services names = all (λ n. elem n (object_names services)) names ≡ true

  pub get_links-Fine :
      (services : List (ServiceObject Definition)) (name : String) (links : List String)
      → Known services (get_service_names links)
      → Fine
          (λ found. Known services (map (λ (l : String × Option String). l.0) found))
          (get_links services name links)
  unfolding get_links get_service_names
  get_links-Fine services name links h =
      let p = λ (link : String). elem (first_part (split b':' link)) (object_names services) in
      Fine-map
        (λ found.
          all (λ (l : String × Option String). elem l.0 (object_names services)) found ≡ true)
        (λ found. Known services (map (λ (l : String × Option String). l.0) found))
        (get_links services name links)
        (λ found good.
          all-map (λ n. elem n (object_names services)) (λ (l : String × Option String). l.0) found
          ∙ good)
        (traverse-Fine
          (λ link.
            let found = link_of link (split_once b':' link) in
            linked name found (find_service services found.0))
          p (λ (l : String × Option String). elem l.0 (object_names services)) each links
          (sym (
              all-map (λ n. elem n (object_names services)) (λ link. first_part (split b':' link))
                links)
            ∙ h))
    where
      each :
          (link : String)
          → elem (first_part (split b':' link)) (object_names services) ≡ true
          → Fine
              (λ (l : String × Option String). elem l.0 (object_names services) ≡ true)
              (linked name
                (link_of link (split_once b':' link))
                (find_service services (link_of link (split_once b':' link)).0))
      each link known =
          let there =
            subst (λ t. elem t (object_names services) ≡ true) (sym (link_target b':' link))
              known in
          rw (find_service-found services (link_of link (split_once b':' link)).0 there) there

  present-Known :
      (services : List (ServiceObject Definition)) (name : Option String)
      → is_present name ≡ true
      → Known services (present name)
      → elem (text_of name) (object_names services) ≡ true
  present-Known services none h k = absurd (ground arith)
  present-Known services (some name) h k = ground arith

  present-of_elem :
      (services : List (ServiceObject Definition)) (name : String)
      → elem name (object_names services) ≡ true
      → Known services (present (some name))
  present-of_elem services name h = ground arith

  container-Fine :
      (services : List (ServiceObject Definition)) (name dep : String) (found : Option Container)
      → Fine (λ m. Known services (present (service_name m))) (container_mode name dep found)
  unfolding service_name
  container-Fine services name dep none = refl
  container-Fine services name dep (some c) = refl

  first-Known :
      (services : List (ServiceObject Definition)) (networks : List String)
      → Known services (present (service_name (first_network networks)))
  unfolding service_name
  first-Known services [] = refl
  first-Known services (n ∷ networks) = refl

  pub mode-Fine :
      (find : String → Option Container) (services : List (ServiceObject Definition))
      (use_networking : Bool) (name : String) (mode : Option String) (networks : List String)
      → Known services (present (get_service_name_from_network_mode mode))
      → Fine
          (λ m. Known services (present (service_name m)))
          (get_network_mode find services use_networking name mode networks)
  unfolding get_network_mode service_name
  mode-Fine find services use_networking name mode networks h =
      elim (Bool-cases (is_present mode)) [
        | inr absent ↦ rw absent (elim (Bool-cases use_networking) [
          | inl networking ↦ rw networking (first-Known services networks)
          | inr isolated ↦ rw isolated refl
        ])
        | inl given ↦
            rw given (elim (Bool-cases (is_present (get_service_name_from_network_mode mode))) [
              | inl of_service ↦
                  let there =
                    present-Known services (get_service_name_from_network_mode mode) of_service h in
                  rw of_service (
                    rw
                      (find_service-found services
                        (text_of (get_service_name_from_network_mode mode)) there)
                      (present-of_elem services (text_of (get_service_name_from_network_mode mode))
                        there))
              | inr other ↦
                  rw other
                    (elim (Bool-cases (is_present (get_container_name_from_network_mode mode))) [
                      | inl of_container ↦ rw of_container (
                          container-Fine services name
                            (text_of (get_container_name_from_network_mode mode))
                            (find (text_of (get_container_name_from_network_mode mode))))
                      | inr plain ↦ rw plain refl
                    ])
            ])
      ]

  container_source-Fine :
      (services : List (ServiceObject Definition)) (name : String) (spec : VolumeFromSpec)
      (found : Option Container)
      → is_found found ≡ true
      → Fine
          (λ (v : VolumeFrom). Known services (source_name v.source))
          (from_container name spec found)
  container_source-Fine services name spec none h = absurd (ground arith)
  container_source-Fine services name spec (some c) h = refl

  pub source-Fine :
      (find : String → Option Container) (services : List (ServiceObject Definition))
      (name : String) (spec : VolumeFromSpec)
      → has_source find (object_names services) spec ≡ true
      → Fine
          (λ (v : VolumeFrom). Known services (source_name v.source))
          (build_volume_from find services name spec)
  unfolding build_volume_from
  source-Fine find services name spec h = elim (Bool-cases (spec.type == "service")) [
    | inl from ↦ rw from (
        rw (find_service-found services spec.source (ground (arith, from, h)))
          (ground (arith, from, h)))
    | inr other ↦
        let is_container = container_type (spec.type == "container") other h in
        rw other (
          rw is_container.0
            (container_source-Fine services name spec (find spec.source) is_container.1))
  ]
    where
      container_type :
          (is_container : Bool)
          → (spec.type == "service") ≡ false
          → (((spec.type == "service") && elem spec.source (object_names services))
              || (not (spec.type == "service") && is_container && is_found (find spec.source)))
            ≡ true
          → (is_container ≡ true) × (is_found (find spec.source) ≡ true)
      container_type is_container other h = (ground (arith, other, h), ground (arith, other, h))

  pub sources-Known :
      (services : List (ServiceObject Definition)) (volumes_from : List VolumeFrom)
      → all
          (λ (v : VolumeFrom). all (λ n. elem n (object_names services)) (source_name v.source))
          volumes_from
        ≡ true
      → Known services (source_names volumes_from)
  sources-Known services [] h = refl
  sources-Known services (v ∷ volumes_from) h = ground (
    arith,
    sources-Known services volumes_from,
    all-append (λ n. elem n (object_names services)) (source_name v.source)
        (source_names volumes_from),
  )
