-- ===== src/Config/Volumes/Laws.antt =====
-- Volume specifications are printed and read again.
use docke_compose_customize.Prelude.{
  String, ◌≡◌, refl, ap, subst, true, false, none, some, List, [], ◌∷◌, is_empty, has_char, split,
  AllPlain, split-AllPlain, split-join_two, split-join_three,
}
use docke_compose_customize.Result.{ok, ok_injective}
use docke_compose_customize.Config.Volumes.{
  OsPath, VolumeSpec, is_truthy, normalize_paths_for_engine, parse_volume, parse_volume_parts,
  volume_parts, volume_repr,
}

-- `os.path.normpath` on a POSIX platform: it is idempotent, never returns the empty text, and adds
-- no colon.
pub record IsPosix (os : OsPath) : Type 0 where
  pub posix : os.is_windows ≡ false
  pub idempotent : (s : String) → os.normpath (os.normpath s) ≡ os.normpath s
  pub non_empty : (s : String) → is_empty (os.normpath s) ≡ false
  pub no_colon : (s : String) → has_char b':' s ≡ false → has_char b':' (os.normpath s) ≡ false

module _ (os : OsPath) (lib : IsPosix os) where
  -- What is printed of a specification with a host path or a volume name.
  reread :
      (a b mode : String)
      → has_char b':' a ≡ false
      → has_char b':' b ≡ false
      → has_char b':' mode ≡ false
      → parse_volume os (
          volume_repr
            (record { external = some (os.normpath a); internal = os.normpath b; mode = mode }))
        ≡ ok (record { external = some (os.normpath a); internal = os.normpath b; mode = mode })
  unfolding parse_volume volume_repr
  reread a b mode ha hb hm =
      rw
        (
          lib.posix,
          lib.non_empty a,
          split-join_three (os.normpath a) (os.normpath b) mode (lib.no_colon a ha)
              (lib.no_colon b hb) hm,
        )
        (rw (lib.idempotent a, lib.idempotent b))

  abbrev named : String → String → String → VolumeSpec
  named a b mode = record { external = some (os.normpath a); internal = os.normpath b; mode = mode }

  volume_parts-posix : (config : String) → volume_parts os config ≡ split b':' config
  unfolding volume_parts
  volume_parts-posix config = rw lib.posix

  reread_parts :
      (config : String) (parts : List String) (v : VolumeSpec)
      → AllPlain b':' parts
      → parse_volume_parts os config parts ≡ ok v
      → is_truthy v.external ≡ true
      → parse_volume os (volume_repr v) ≡ ok v
  unfolding parse_volume_parts normalize_paths_for_engine
  reread_parts config [] v h e t = cc
  reread_parts config (a ∷ []) v h e t = cc (
      ap (λ (r : VolumeSpec). is_truthy r.external)
        (ok_injective (record { external = none; internal = os.normpath a; mode = "rw" }) v
          (rw lib.posix at e)))
  reread_parts config (a ∷ b ∷ []) v h e t =
      subst (λ (r : VolumeSpec). parse_volume os (volume_repr r) ≡ ok r)
        (ok_injective (named a b "rw") v (rw lib.posix at e)) (reread a b "rw" h.0 h.1.0 refl)
  reread_parts config (a ∷ b ∷ m ∷ []) v h e t =
      subst (λ (r : VolumeSpec). parse_volume os (volume_repr r) ≡ ok r)
        (ok_injective (named a b m) v (rw lib.posix at e)) (reread a b m h.0 h.1.0 h.1.1.0)
  reread_parts config (a ∷ b ∷ c ∷ d ∷ r) v h e t = cc

  pub parse_volume-repr :
      (config : String) (v : VolumeSpec)
      → parse_volume os config ≡ ok v
      → is_truthy v.external ≡ true
      → parse_volume os (volume_repr v) ≡ ok v
  parse_volume-repr config v e t =
      reread_parts config (split b':' config) v (split-AllPlain b':' config)
        (unfold parse_volume in rw (volume_parts-posix config) at e) t

  -- A specification without a host path is not: what is printed of it is read as a host path with
  -- the mode as the path in the container.
  pub anonymous-repr :
      (internal mode : String)
      → has_char b':' internal ≡ false
      → has_char b':' mode ≡ false
      → parse_volume os (volume_repr (record { external = none; internal = internal; mode = mode }))
        ≡ ok (record {
          external = some (os.normpath internal);
          internal = os.normpath mode;
          mode = "rw";
        })
  unfolding parse_volume volume_repr
  anonymous-repr internal mode hi hm = rw (lib.posix, split-join_two internal mode hi hm)
