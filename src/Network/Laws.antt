-- ===== src/Network/Laws.antt =====
-- What get_networks returns or raises.
use docke_compose_customize.Prelude.{
  String, ◌≡◌, refl, ◌∙◌, Bool, true, false, ◌||◌, Option, none, some, List, [], ◌∷◌, ◌==◌,
  string_eq, eq_refl, arith, ◌⊎◌, inl, inr, All,
}
use docke_compose_customize.Result.{ok, err, undefined_network}
use docke_compose_customize.Container.{get, put}
use docke_compose_customize.Network.{
  Network, network_name, ServiceNetworks, get_network_defs_for_service, get_each, get_networks,
}

-- `key in d`
abbrev pub has {ℓ} : {V : Type ℓ} → String → List (String × V) → Bool
has key [] = false
has key ((k, v) ∷ d) = k == key || has key d

module _ {Definition : Type 0} (empty : Definition) (definitions : List (String × Network)) where
  -- the network is defined, and its full name is among the networks
  abbrev pub Joined : List (String × Definition) → String × Definition → Type 0
  Joined networks d =
      (network : Network) × (get d.0 definitions ≡ some network)
      × (has (network_name network) networks ≡ true)

  has-put :
      (j k : String) (v : Definition) (d : List (String × Definition))
      → has j (put k v d) ≡ (k == j || has j d)
  has-put j k v [] = refl
  has-put j k v ((i, w) ∷ d) = ground (arith, has-put j k v d, string_eq.beq_iff i k)

  abbrev ResultOf : String → List (String × Definition) → List (String × Definition) → Type 0
  ResultOf service defs networks =
      ((name : String) × (has name defs ≡ true)
        × (get name definitions ≡ none)
        × (get_each empty service definitions defs networks ≡ err (undefined_network service name)))
      ⊎ ((joined : List (String × Definition)) × (get_each empty service definitions defs networks
            ≡ ok joined)
          × All (Joined joined) defs
          × ((key : String) → has key networks ≡ true → has key joined ≡ true))

  step :
      (service : String) (d : String × Definition) (defs networks : List (String × Definition))
      (found : Option Network)
      → get d.0 definitions ≡ found
      → ((after : List (String × Definition)) → ResultOf service defs after)
      → ResultOf service (d ∷ defs) networks
  unfolding get_each
  step service d defs networks none missing rest =
      inl (d.0, rw (eq_refl d.0) refl, missing, rw missing refl)
  step service d defs networks (some network) found rest =
      let after = put (network_name network) d.1 networks in
      elim (rest after) [
        | inl (name, member, missing, same) ↦
            inl (name, ground (arith, member), missing, (rw found same))
        | inr (joined, same, all_joined, kept) ↦ inr (
          joined,
          (rw found same),
          (
            (
              network,
              found,
              kept (network_name network) (
                  has-put (network_name network) (network_name network) d.1 networks
                  ∙ (rw (eq_refl (network_name network)) refl)),
            ),
            all_joined,
          ),
          λ key h. kept key (ground (arith, has-put key (network_name network) d.1 networks, h)),
        )
      ]

  each :
      (service : String) (defs networks : List (String × Definition))
      → ResultOf service defs networks
  unfolding get_each
  each service [] networks = inr (networks, refl, tt, λ key h. h)
  each service (d ∷ defs) networks =
      step service d defs networks (get d.0 definitions) refl (each service defs)

  -- Either a network of the service is not defined, and the error names the service and such a
  -- network, or every network of the service is defined and the result has each by its full name.
  pub get_networks_lem :
      (service_dict : ServiceNetworks Definition)
      → ((name : String) × (has name (get_network_defs_for_service empty service_dict) ≡ true)
          × (get name definitions ≡ none)
          × (get_networks empty service_dict definitions
              ≡ err (undefined_network service_dict.name name)))
        ⊎ ((joined : List (String × Definition)) × (get_networks empty service_dict definitions
              ≡ ok joined)
            × All (Joined joined) (get_network_defs_for_service empty service_dict))
  unfolding get_networks
  get_networks_lem service_dict =
      elim (each service_dict.name (get_network_defs_for_service empty service_dict) []) [
        | inl missing ↦ inl missing
        | inr (joined, same, all_joined, kept) ↦ inr (joined, same, all_joined)
      ]
