-- ===== src/Config/Types/Samples.antt =====
-- The theorems about specifications at small inputs.
use docke_compose_customize.Prelude.{
  ℕ, zero, suc, String, ◌≡◌, refl, Bool, true, false, Option, none, some, ◌⊎◌, inl, inr, has_char,
  nat_beq, nat_beq_iff, ap, arith,
}
use docke_compose_customize.Prelude
use docke_compose_customize.Result.{ok}
use docke_compose_customize.Config.Types.{
  VolumeFromSpec, parse_v2, volume_from_repr, Numbers, parse_restart_spec, serialize_restart_spec,
}
use docke_compose_customize.Config.Types.Laws.{parse_v2-repr, parse_restart_spec-serialize}

abbrev from_data : VolumeFromSpec
from_data = record { source = "data"; mode = "ro"; type = "container" }

parse_v2-repr_example : parse_v2 (volume_from_repr from_data) ≡ ok from_data
parse_v2-repr_example =
    parse_v2-repr from_data (record { known = inr refl; source_plain = refl; mode_plain = refl })

data_parsed : parse_v2 "container:data:ro" ≡ ok from_data
unfolding parse_v2 Prelude.split
data_parsed = refl

-- Numbers in unary: one `1` for each unit.
abbrev ones : ℕ → String
ones zero = ""
ones (suc n) = String.◌∷◌ "1" (ones n)

abbrev count_ones : String → ℕ
count_ones String.[] = 0
count_ones (String.◌∷◌ c s) = suc (count_ones s)

count_ones-ones : (n : ℕ) → some (count_ones (ones n)) ≡ some n
count_ones-ones zero = refl
count_ones-ones (suc n) = cc (count_ones-ones n)

ones_plain : (n : ℕ) → has_char b':' (ones n) ≡ false
ones_plain zero = refl
ones_plain (suc n) = ground (arith, ones_plain n)

abbrev unary : Numbers
unary = record {
  Number = ℕ;
  zero = 0;
  is_zero = λ n. nat_beq n 0;
  int = λ s. some (count_ones s);
  str = ones;
  is_zero_zero = λ n h. (nat_beq_iff n 0).0 h;
  int-str = count_ones-ones;
  str_no_colon = ones_plain;
}

parse_restart_spec-serialize_example :
    parse_restart_spec unary (serialize_restart_spec unary ("on-failure", 3))
    ≡ ok (some ("on-failure", 3))
parse_restart_spec-serialize_example =
    parse_restart_spec-serialize unary ("on-failure", 3) refl refl
