-- ===== src/Project/Build/Order.antt =====
-- What from_config makes of services that stand after those that they refer to.
use docke_compose_customize.Prelude.{
  String, ◌≡◌, refl, ap, ◌∙◌, Bool, true, ◌&&◌, Option, none, some, List, [], ◌∷◌, ◌++◌, map,
  string_eq, all, elem, arith, Bool-cases, inl, inr, if◌then◌else◌,
}
use docke_compose_customize.Result.{ok, ◌>>=◌, traverse, for_each}
use docke_compose_customize.Container.{Container, get}
use docke_compose_customize.Config.Volumes.{VolumeSpec, is_named_volume, or_empty}
use docke_compose_customize.Network.{get_networks}
use docke_compose_customize.Network.Laws.{get_networks_lem}
use docke_compose_customize.Volume.Namespace.{namespace_spec, renamed}
use docke_compose_customize.Volume.{Volume}
use docke_compose_customize.Service.Modes.{
  service_name, present, VolumeFrom, source_name, source_names, ServiceObject, get_dependency_names,
}
use docke_compose_customize.Project.Build.{
  ServiceConfig, Surroundings, is_v1, uses_networking, is_some, build_volume_from, keys,
  build_service, from_config,
}
use docke_compose_customize.Project.{Service, service_names}
use docke_compose_customize.Project.Closure.{IsClosed-append, IsClosed}
use docke_compose_customize.Project.Build.Fine.{
  Fine, Fine-bind, Fine-map, traverse-Fine, all-append,
}
use docke_compose_customize.Project.Build.References.{
  has_source, is_resolved, object_names, Known, get_links-Fine, mode-Fine, source-Fine,
  sources-Known,
}

renamed-Fine :
    (v : VolumeSpec) (found : Option Volume)
    → Fine (λ (w : VolumeSpec). true ≡ true) (renamed v found)
renamed-Fine v none = refl
renamed-Fine v (some volume) = refl

namespace-Fine :
    (volumes : List (String × Volume)) (v : VolumeSpec)
    → Fine (λ (w : VolumeSpec). true ≡ true) (namespace_spec volumes v)
unfolding namespace_spec
namespace-Fine volumes v = elim (Bool-cases (is_named_volume v)) [
  | inl named ↦ rw named (renamed-Fine v (get (or_empty v.external) volumes))
  | inr path ↦ rw path refl
]

module _ {Definition : Type 0} where
  networks-Fine :
      (around : Surroundings Definition) (c : ServiceConfig Definition)
      → Fine
          (λ (networks : List (String × Definition)). Unit {0})
          (if uses_networking around.version
            then get_networks around.empty
                (record {
                  name = c.dict.name;
                  has_network_mode = is_some c.dict.network_mode;
                  networks = c.networks;
                })
                around.networks
            else ok [])
  networks-Fine around c = elim (Bool-cases (uses_networking around.version)) [
    | inr isolated ↦ rw isolated tt
    | inl networking ↦
        rw networking
          (elim (get_networks_lem around.empty around.networks (record {
            name = c.dict.name;
            has_network_mode = is_some c.dict.network_mode;
            networks = c.networks;
          })) [
            | inl (name, member, missing, same) ↦ rw same refl
            | inr (joined, same, all_joined) ↦ rw same tt
          ])
  ]

  volumes-Fine :
      (around : Surroundings Definition) (vs : List VolumeSpec)
      → Fine
          (λ (ws : List VolumeSpec). Unit {0})
          (if is_v1 around.version then ok vs else traverse (namespace_spec around.volumes) vs)
  volumes-Fine around vs = elim (Bool-cases (is_v1 around.version)) [
    | inl old ↦ rw old tt
    | inr new ↦ rw new (
        Fine-map (λ (ws : List VolumeSpec). all (λ w. true) ws ≡ true) (λ ws. Unit {0})
          (traverse (namespace_spec around.volumes) vs) (λ ws h. tt)
          (traverse-Fine (namespace_spec around.volumes) (λ v. true) (λ w. true)
            (λ v h. namespace-Fine around.volumes v) vs (all_true vs)))
  ]
    where
      all_true : (vs : List VolumeSpec) → all (λ v. true) vs ≡ true
      all_true [] = refl
      all_true (v ∷ vs) = all_true vs

  -- the service of the configuration, with dependencies that have been made
  abbrev Made :
      List (ServiceObject Definition) → ServiceConfig Definition → ServiceObject Definition → Type 0
  Made services c s = (s.name ≡ c.dict.name) × Known services (get_dependency_names s)

  append-Known :
      (services : List (ServiceObject Definition)) (a b : List String)
      → Known services a
      → Known services b
      → Known services (a ++ b)
  append-Known services a b h k =
      ground (arith, all-append (λ n. elem n (object_names services)) a b, h, k)

  build_service-Fine :
      (around : Surroundings Definition) (services : List (ServiceObject Definition))
      (c : ServiceConfig Definition)
      → is_resolved around.find (object_names services) c.dict ≡ true
      → Fine (Made services c) (build_service around services c)
  unfolding build_service get_dependency_names
  build_service-Fine around services c h =
      Fine-bind (λ networks. Unit) (Made services c) _ _ (networks-Fine around c)
        (λ networks u.
          Fine-bind (λ links. Known services (map (λ (l : String × Option String). l.0) links))
            (Made services c) _ _
            (get_links-Fine services c.dict.name c.dict.links (ground (arith, h)))
            (λ links linked_known.
              Fine-bind (λ m. Known services (present (service_name m))) (Made services c) _ _
                (mode-Fine around.find services (uses_networking around.version) c.dict.name
                  c.dict.network_mode (keys networks) (ground (arith, h)))
                (λ mode mode_known.
                  Fine-bind
                    (λ vs.
                      all
                        (λ (v : VolumeFrom).
                          all (λ n. elem n (object_names services)) (source_name v.source))
                        vs
                      ≡ true)
                    (Made services c) _ _
                    (traverse-Fine (build_volume_from around.find services c.dict.name)
                      (has_source around.find (object_names services))
                      (λ (v : VolumeFrom).
                        all (λ n. elem n (object_names services)) (source_name v.source))
                      (λ spec found. source-Fine around.find services c.dict.name spec found)
                      c.dict.volumes_from (ground (arith, h)))
                    (λ volumes_from sources_known.
                      Fine-bind (λ vs. Unit) (Made services c) _ _ (volumes-Fine around c.volumes)
                        (λ volumes u. (
                          refl,
                          append-Known services _ c.dict.depends_on
                              (append-Known services _ (present (service_name mode))
                                (append-Known services
                                  (map (λ (l : String × Option String). l.0) links)
                                  (source_names volumes_from) linked_known
                                  (sources-Known services volumes_from sources_known))
                                mode_known)
                              (ground (arith, h)),
                        ))))))

-- each service of the configuration stands after those that it refers to, where `seen` stand before
abbrev pub in_order :
    {Definition : Type 0}
    → (String → Option Container)
    → List String
    → List (ServiceConfig Definition)
    → Bool
in_order find seen [] = true
in_order find seen (c ∷ cs) =
    is_resolved find seen c.dict && in_order find (seen ++ c.dict.name ∷ []) cs

abbrev pub config_names : {Definition : Type 0} → List (ServiceConfig Definition) → List String
config_names cs = map (λ (c : ServiceConfig _). c.dict.name) cs

append_nil : (a : List String) → a ≡ a ++ []
append_nil [] = refl
append_nil (x ∷ a) = ap (λ ns. x ∷ ns) (append_nil a)

append_assoc : (a b c : List String) → (a ++ b) ++ c ≡ a ++ (b ++ c)
append_assoc [] b c = refl
append_assoc (x ∷ a) b c = ap (λ ns. x ∷ ns) (append_assoc a b c)

module _ {Definition : Type 0} (hash : ServiceObject Definition → Option String)
    (containers : ServiceObject Definition → List Container) where
  -- what the methods of the project read of a service
  abbrev pub observed : ServiceObject Definition → Service
  observed s = record {
    name = s.name;
    dependency_names = get_dependency_names s;
    config_hash = hash s;
    containers = containers s;
  }

  -- the services of the configuration, in its order, each after its dependencies
  abbrev pub Built : List String → List (ServiceObject Definition) → Type 0
  Built names built = (object_names built ≡ names) × IsClosed (map observed built)

  names-observed :
      (made : List (ServiceObject Definition))
      → service_names (map observed made) ≡ object_names made
  names-observed [] = refl
  names-observed (s ∷ made) = ap (λ ns. s.name ∷ ns) (names-observed made)

  map_append :
      (a b : List (ServiceObject Definition))
      → map observed (a ++ b) ≡ map observed a ++ map observed b
  map_append [] b = refl
  map_append (s ∷ a) b = ap (λ ss. observed s ∷ ss) (map_append a b)

  object_names-append :
      (a b : List (ServiceObject Definition))
      → object_names (a ++ b) ≡ object_names a ++ object_names b
  object_names-append [] b = refl
  object_names-append (s ∷ a) b = ap (λ ns. s.name ∷ ns) (object_names-append a b)

  made-IsClosed :
      (made : List (ServiceObject Definition)) (s : ServiceObject Definition)
      → IsClosed (map observed made)
      → Known made (get_dependency_names s)
      → IsClosed (map observed (made ++ s ∷ []))
  made-IsClosed made s h k = rw (map_append made (s ∷ [])) (
      IsClosed-append (map observed made) (map observed (s ∷ [])) h
        (rw (names-observed made) (ground (arith, k))))

  loop-Fine :
      (around : Surroundings Definition) (cs : List (ServiceConfig Definition))
      (made : List (ServiceObject Definition))
      → IsClosed (map observed made)
      → in_order around.find (object_names made) cs ≡ true
      → Fine
          (Built (object_names made ++ config_names cs))
          (for_each (λ c made. build_service around made c >>= λ s. ok (made ++ s ∷ [])) cs made)
  loop-Fine around [] made closed h = (append_nil (object_names made), closed)
  loop-Fine around (c ∷ cs) made closed h =
      Fine-bind
        (λ made'.
          (object_names made' ≡ object_names made ++ c.dict.name ∷ [])
          × IsClosed (map observed made'))
        (Built (object_names made ++ c.dict.name ∷ config_names cs)) _ _
        (Fine-bind (Made made c) _ _ _ (build_service-Fine around made c (ground (arith, h)))
          (λ s good. (
            object_names-append made (s ∷ []) ∙ ap (λ n. object_names made ++ n ∷ []) good.0,
            made-IsClosed made s closed good.1,
          )))
        (λ made' grown.
          Fine-map (Built (object_names made' ++ config_names cs))
            (Built (object_names made ++ c.dict.name ∷ config_names cs)) _
            (λ built found. (
              found.0
                  ∙ (ap (λ ns. ns ++ config_names cs) grown.0
                      ∙ append_assoc (object_names made) (c.dict.name ∷ []) (config_names cs)),
              found.1,
            ))
            (loop-Fine around cs made' grown.1 (rw grown.0 (ground (arith, h)))))

  pub from_config-Built :
      (around : Surroundings Definition) (cs : List (ServiceConfig Definition))
      → in_order around.find [] cs ≡ true
      → Fine (Built (config_names cs)) (from_config around cs)
  unfolding from_config
  from_config-Built around cs h = loop-Fine around cs [] refl h
