-- ===== src/Service/Bindings/Kept.antt =====
-- The named volumes of the previous container stay mounted.
use docke_compose_customize.Prelude.{
  String, Bool, ◌≡◌, refl, ap, eq_refl, ◌⊎◌, inl, inr, true, false, not, ◌&&◌, Option, none, some,
  List, [], ◌∷◌, ◌++◌, map, ◌==◌, string_eq, any, is_empty, join, arith, Bool-cases,
}
use docke_compose_customize.Container.{get, update}
use docke_compose_customize.Container.Dict.{get-put, update-map_append}
use docke_compose_customize.Config.Volumes.{
  OsPath, VolumeSpec, parse_volume, volume_repr, is_truthy,
}
use docke_compose_customize.Result.{ok, traverse, Returns}
use docke_compose_customize.Service.Bindings.{
  Previous, Bindings, kept, data_volume, data_volumes, build_volume_binding, with_external,
  get_container_data_volumes, external_bindings, merge_volume_bindings,
}

-- a binding of the named volume to the path, in some mode
abbrev pub IsBound : String → String → Option String → Type 0
IsBound name path binding = (mode : String) × (binding ≡ some (join ":" (name ∷ path ∷ mode ∷ [])))

-- a volume of the configuration or the image at the path, without a host path
abbrev pub is_data : String → VolumeSpec → Bool
is_data path v = v.internal == path && not (is_truthy v.external)

repr-with_external :
    (name : String) (v : VolumeSpec)
    → is_empty name ≡ false
    → volume_repr (with_external v name) ≡ join ":" (name ∷ v.internal ∷ v.mode ∷ [])
unfolding volume_repr
repr-with_external name v named = rw named refl

kept-other :
    (path name : String) (v : VolumeSpec) (mount : Option (Option String))
    (d : List (String × String))
    → (v.internal == path) ≡ false
    → IsBound name path (get path d)
    → IsBound name path (get path (update d (map build_volume_binding (kept v mount))))
kept-other path name v none d other h = h
kept-other path name v (some none) d other h = h
kept-other path name v (some (some n)) d other h = elim (Bool-cases (is_empty n)) [
  | inl empty ↦ rw empty h
  | inr full ↦
      rw full (rw (get-put path v.internal (volume_repr (with_external v n)) d) (rw other h))
]

module _ (mounts : List (String × Option String)) (path name : String) where
  keep_one :
      get path mounts ≡ some (some name)
      → is_empty name ≡ false
      → (v : VolumeSpec) (d : List (String × String))
      → IsBound name path (get path d) ⊎ (is_data path v ≡ true)
      → IsBound name path (get path (update d (map build_volume_binding (data_volume mounts v))))
  keep_one mounted named v d h = elim (Bool-cases (is_truthy v.external)) [
    | inl external ↦ rw external (elim h [ inl bound ↦ bound | inr found ↦ absurd (ground arith) ])
    | inr internal ↦ rw internal (elim (Bool-cases (v.internal == path)) [
      | inl same ↦ here ((string_eq.beq_iff v.internal path).0 same)
      | inr other ↦ elim h [
        | inl bound ↦ kept-other path name v (get v.internal mounts) d other bound
        | inr found ↦ absurd (ground arith)
      ]
    ])
  ]
    where
      here :
          v.internal ≡ path
          → IsBound name path
              (get path (update d (map build_volume_binding (kept v (get v.internal mounts)))))
      here same = (
        v.mode,
        rw same (
            rw mounted (
              rw named (
                rw
                  (get-put path path
                    (volume_repr (with_external (record v { internal = path }) name)) d)
                  (rw (eq_refl path) (
                    ap (λ r. some r)
                      (repr-with_external name (record v { internal = path }) named)))))),
      )

  keep :
      get path mounts ≡ some (some name)
      → is_empty name ≡ false
      → (vs : List VolumeSpec) (d : List (String × String))
      → IsBound name path (get path d) ⊎ (any (is_data path) vs ≡ true)
      → IsBound name path (get path (update d (map build_volume_binding (data_volumes mounts vs))))
  unfolding data_volumes
  keep mounted named [] d h = elim h [ inl bound ↦ bound | inr none_left ↦ absurd (ground arith) ]
  keep mounted named (v ∷ vs) d h =
      rw (update-map_append build_volume_binding (data_volume mounts v) (data_volumes mounts vs) d)
        (keep mounted named vs (update d (map build_volume_binding (data_volume mounts v)))
          (next h))
    where
      next :
          IsBound name path (get path d) ⊎ (any (is_data path) (v ∷ vs) ≡ true)
          → IsBound name path
              (get path (update d (map build_volume_binding (data_volume mounts v))))
            ⊎ (any (is_data path) vs ≡ true)
      next (inl bound) = inl (keep_one mounted named v d (inl bound))
      next (inr found) = elim (Bool-cases (is_data path v)) [
        | inl first ↦ inl (keep_one mounted named v d (inr first))
        | inr later ↦ inr (ground arith)
      ]

-- A volume without a host path, of the configuration or the image, at whose path the previous
-- container has a named volume mounted, is bound to that volume again. The volumes of the image are
-- texts that can be parsed, and going through a set finds the same volumes as the list.
pub merge_volume_bindings-keeps :
    (os : OsPath) (set_order : List VolumeSpec → List VolumeSpec) (previous : Previous)
    → ((p : VolumeSpec → Bool) (vs : List VolumeSpec) → any p (set_order vs) ≡ any p vs)
    → (volumes image_volumes : List VolumeSpec)
    → traverse (parse_volume os) previous.image_volumes ≡ ok image_volumes
    → (path name : String) → any (is_data path) (volumes ++ image_volumes) ≡ true
    → get path (update [] previous.mounts) ≡ some (some name)
    → is_empty name ≡ false
    → Returns
        (λ (b : Bindings). IsBound name path (get path b.volume_bindings))
        (merge_volume_bindings os set_order volumes (some previous))
unfolding merge_volume_bindings get_container_data_volumes
merge_volume_bindings-keeps os set_order previous order volumes image_volumes parsed path name found
      mounted named =
    rw parsed (
      keep (update [] previous.mounts) path name mounted named
        (set_order (volumes ++ image_volumes)) (external_bindings volumes)
        (inr (rw (order (is_data path) (volumes ++ image_volumes)) found)))
