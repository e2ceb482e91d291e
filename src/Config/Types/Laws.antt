-- ===== src/Config/Types/Laws.antt =====
-- Specifications are printed and read again (VolumeFromSpec, ServiceLink, restart policies).
use docke_compose_customize.Prelude.{
  String, sym, ap, is_empty-concat, ◌≡◌, refl, false, some, List, [], ◌∷◌, ◌⊎◌, inl, inr, ◌==◌,
  string_eq, arith, Bool-cases, concat, is_empty, has_char, split, split_none, split-concat,
  split-join_three, split_once-none, split_once-concat,
}
use docke_compose_customize.Result.{ok}
use docke_compose_customize.Config.Types.{
  VolumeFromSpec, parse_parts_v2, parse_restart_parts, restart_count, parse_v2, volume_from_repr,
  ServiceLink, parse_link, link_repr, Numbers, RestartSpec, parse_restart_spec,
  serialize_restart_spec,
}

-- The fields of a specification that can be printed.
pub record IsPrintable (v : VolumeFromSpec) : Type 0 where
  pub known : (v.type ≡ "service") ⊎ (v.type ≡ "container")
  pub source_plain : has_char b':' v.source ≡ false
  pub mode_plain : has_char b':' v.mode ≡ false

-- What `repr` prints is read back as the same specification under the version 2 syntax.
pub parse_v2-repr : (v : VolumeFromSpec) → IsPrintable v → parse_v2 (volume_from_repr v) ≡ ok v
unfolding parse_v2 volume_from_repr
parse_v2-repr v p = elim p.known [
  | inl service ↦ rw service (
      rw (split-join_three "service" v.source v.mode refl p.source_plain p.mode_plain)
        (unfold parse_parts_v2 in refl))
  | inr container ↦ rw container (
      rw (split-join_three "container" v.source v.mode refl p.source_plain p.mode_plain)
        (unfold parse_parts_v2 in refl))
]

parse_parts_v2_type :
    (config : String) (parts : List String) (v : VolumeFromSpec)
    → parse_parts_v2 config parts ≡ ok v
    → (v.type ≡ "service") ⊎ (v.type ≡ "container")
unfolding parse_parts_v2
parse_parts_v2_type config [] v h = cc
parse_parts_v2_type config (a ∷ []) v h = ground arith
parse_parts_v2_type config (a ∷ b ∷ []) v h = ground (arith, string_eq.beq_iff a "container")
parse_parts_v2_type config (a ∷ b ∷ c ∷ []) v h =
    ground (arith, string_eq.beq_iff a "container", string_eq.beq_iff a "service")
parse_parts_v2_type config (a ∷ b ∷ c ∷ d ∷ r) v h = cc

-- Whatever the text, the type of a parsed specification is one of the two known ones.
pub parse_v2_type :
    (config : String) (v : VolumeFromSpec)
    → parse_v2 config ≡ ok v
    → (v.type ≡ "service") ⊎ (v.type ≡ "container")
unfolding parse_v2
parse_v2_type config v h = parse_parts_v2_type config (split b':' config) v h

-- A link is printed and read back.
pub parse_link-repr :
    (s : ServiceLink)
    → has_char b':' s.target ≡ false
    → is_empty s.alias ≡ false
    → parse_link (link_repr s) ≡ s
unfolding parse_link link_repr
parse_link-repr s plain named = elim (Bool-cases (s.target == s.alias)) [
  | inl same ↦ rw same (
      rw (split_once-none b':' s.target plain) (ground (arith, string_eq.beq_iff s.target s.alias)))
  | inr other ↦ rw other (rw (split_once-concat b':' ":" s.target s.alias refl plain) (rw named))
]

module _ (numbers : Numbers) where
  open numbers use {str}

  -- A restart policy with a name is printed and read back.
  pub parse_restart_spec-serialize :
      (spec : RestartSpec numbers)
      → is_empty spec.0 ≡ false
      → has_char b':' spec.0 ≡ false
      → parse_restart_spec numbers (serialize_restart_spec numbers spec) ≡ ok (some spec)
  unfolding parse_restart_spec serialize_restart_spec
  parse_restart_spec-serialize (name, n) named plain = elim (Bool-cases (numbers.is_zero n)) [
    | inl none_left ↦
        rw (none_left, named, split_none b':' name plain)
          (unfold parse_restart_parts in
            ap (λ k. ok (some (name, k))) (sym (numbers.is_zero_zero n none_left)))
    | inr left ↦
        rw
          (
            left,
            is_empty-concat name (concat ":" (str n)),
            named,
            split-concat b':' ":" name (str n) refl plain,
            split_none b':' (str n) (numbers.str_no_colon n),
          )
          (unfold parse_restart_parts in rw (numbers.int-str n, restart_count))
  ]
