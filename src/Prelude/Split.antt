-- ===== src/Prelude/Split.antt =====
-- Where a text is split, and how long its parts are.
use Prim.Native.Nat.{ℕ, suc, ◌+◌}
use Prim.Native.Char.{Char, code}
use Prim.Native.String.{String}
use text.Mathlib.TextEquality.{Char-path}
use mathlib.Core.Path.{◌≡◌, refl, ap, sym}
use mathlib.Core.Logic.{inl, inr}
use mathlib.Core.Bool.{false}
use mathlib.Core.Option.{Option, none, some}
use native.Mathlib.Omega.{arith}
use docke_compose_customize.Prelude.Tests.{nat_beq, nat_beq_iff, Bool-cases}
use docke_compose_customize.Prelude.Text.{concat, has_char, on_first, split_once}

-- `len(s)`
abbrev pub size : String → ℕ
size String.[] = 0
size (String.◌∷◌ c s) = suc (size s)

pub size-concat : (a b : String) → size (concat a b) ≡ size a + size b
size-concat String.[] b = omega arith
size-concat (String.◌∷◌ c a) b = omega (arith, size-concat a b)

pub concat_assoc : (a b c : String) → concat (concat a b) c ≡ concat a (concat b c)
concat_assoc String.[] b c = refl
concat_assoc (String.◌∷◌ x a) b c = ap (String.◌∷◌ x) (concat_assoc a b c)

pub concat-nil : (a : String) → concat a "" ≡ a
concat-nil String.[] = refl
concat-nil (String.◌∷◌ x a) = ap (String.◌∷◌ x) (concat-nil a)

-- What `split_once` finds: the parts on the two sides of the first separator, or no separator.
abbrev pub Joined : Char → String → Option (String × String) → Type 0
Joined sep s none = has_char (code sep) s ≡ false
Joined sep s (some (a, b)) = (concat a (String.◌∷◌ sep b) ≡ s) × (has_char (code sep) a ≡ false)

Joined-on_first :
    (sep c : Char) (s : String) (r : Option (String × String))
    → nat_beq (code c) (code sep) ≡ false
    → Joined sep s r
    → Joined sep (String.◌∷◌ c s) (on_first (String.◌∷◌ c) r)
Joined-on_first sep c s none other h = ground (arith, other, h)
Joined-on_first sep c s (some (a, b)) other h = (ap (String.◌∷◌ c) h.0, ground (arith, other, h.1))

pub split_once-Joined : (sep : Char) (s : String) → Joined sep s (split_once (code sep) s)
unfolding split_once
split_once-Joined sep String.[] = refl
split_once-Joined sep (String.◌∷◌ c s) = elim (Bool-cases (nat_beq (code c) (code sep))) [
  | inl same ↦ rw same (
    ap (λ d. String.◌∷◌ d s) (sym (Char-path c sep ((nat_beq_iff (code c) (code sep)).0 same))),
    refl,
  )
  | inr other ↦
      rw other (Joined-on_first sep c s (split_once (code sep) s) other (split_once-Joined sep s))
]
