-- ===== src/Prelude/Text.antt =====
-- Python's methods on text. A text is walked character by character.
use Prim.Native.Nat.{ℕ}
use Prim.Native.Char.{Char, code}
use Prim.Native.String.{String}
use mathlib.Core.Path.{◌≡◌, refl}
use mathlib.Core.Logic.{inl, inr}
use mathlib.Core.Bool.{Bool, true, false, ◌&&◌, ◌||◌}
use mathlib.Core.Option.{Option, none, some}
use mathlib.Core.List.{List, [], ◌∷◌}
use native.Mathlib.Omega.{arith}
use docke_compose_customize.Prelude.Tests.{nat_beq, if◌then◌else◌, Bool-cases}

-- `s + t`
abbrev pub concat : String → String → String
concat String.[] t = t
concat (String.◌∷◌ c s) t = String.◌∷◌ c (concat s t)

-- `sep.join(parts)`
abbrev pub join : String → List String → String
join sep [] = ""
join sep (s ∷ []) = s
join sep (s ∷ t ∷ rest) = concat s (concat sep (join sep (t ∷ rest)))

-- `not s`
abbrev pub is_empty : String → Bool
is_empty String.[] = true
is_empty (String.◌∷◌ c s) = false

-- `sep in s`, for one character, given by its number
abbrev pub has_char : ℕ → String → Bool
has_char sep String.[] = false
has_char sep (String.◌∷◌ c s) = nat_beq (code c) sep || has_char sep s

abbrev pub on_first : (String → String) → Option (String × String) → Option (String × String)
on_first f none = none
on_first f (some (a, b)) = some (f a, b)

-- `s.split(sep, 1)`, or `none` where `sep` does not occur
unfoldable pub split_once : ℕ → String → Option (String × String)
split_once sep String.[] = none
split_once sep (String.◌∷◌ c s) =
    let rest = on_first (String.◌∷◌ c) (split_once sep s) in
    if nat_beq (code c) sep then some ("", s) else rest

-- `s.rsplit(sep, 1)`, or `none` where `sep` does not occur
abbrev pub last_split : ℕ → Char → String → Option (String × String) → Option (String × String)
last_split sep c s (some (a, b)) = some (String.◌∷◌ c a, b)
last_split sep c s none = if nat_beq (code c) sep then some ("", s) else none

unfoldable pub rsplit_once : ℕ → String → Option (String × String)
rsplit_once sep String.[] = none
rsplit_once sep (String.◌∷◌ c s) = last_split sep c s (rsplit_once sep s)

abbrev pub on_head : Char → List String → List String
on_head c [] = String.◌∷◌ c "" ∷ []
on_head c (t ∷ ts) = String.◌∷◌ c t ∷ ts

-- `s.split(sep)`
unfoldable pub split : ℕ → String → List String
split sep String.[] = "" ∷ []
split sep (String.◌∷◌ c s) =
    let rest = split sep s in if nat_beq (code c) sep then "" ∷ rest else on_head c rest

-- `s.startswith(prefix)`
abbrev pub starts_with : String → String → Bool
starts_with s String.[] = true
starts_with String.[] (String.◌∷◌ d t) = false
starts_with (String.◌∷◌ c s) (String.◌∷◌ d t) =
    let rest = starts_with s t in if nat_beq (code c) (code d) then rest else false

pub split_none : (sep : ℕ) (s : String) → has_char sep s ≡ false → split sep s ≡ s ∷ []
unfolding split
split_none sep String.[] h = refl
split_none sep (String.◌∷◌ c s) h = ground (arith, split_none sep s)

pub split-concat :
    (sep : ℕ) (c : Char) (a b : String)
    → code c ≡ sep
    → has_char sep a ≡ false
    → split sep (concat a (String.◌∷◌ c b)) ≡ a ∷ split sep b
unfolding split
split-concat sep c String.[] b e h = ground arith
split-concat sep c (String.◌∷◌ d a) b e h = ground (arith, split-concat sep c a b e)

pub split_once-none : (sep : ℕ) (s : String) → has_char sep s ≡ false → split_once sep s ≡ none
unfolding split_once
split_once-none sep String.[] h = refl
split_once-none sep (String.◌∷◌ c s) h = ground (arith, split_once-none sep s)

pub split_once-concat :
    (sep : ℕ) (c : Char) (a b : String)
    → code c ≡ sep
    → has_char sep a ≡ false
    → split_once sep (concat a (String.◌∷◌ c b)) ≡ some (a, b)
unfolding split_once
split_once-concat sep c String.[] b e h = ground arith
split_once-concat sep c (String.◌∷◌ d a) b e h = ground (arith, split_once-concat sep c a b e)

pub rsplit_once-none : (sep : ℕ) (s : String) → has_char sep s ≡ false → rsplit_once sep s ≡ none
unfolding rsplit_once
rsplit_once-none sep String.[] h = refl
rsplit_once-none sep (String.◌∷◌ c s) h = ground (arith, rsplit_once-none sep s)

pub rsplit_once-concat :
    (sep : ℕ) (c : Char) (a b : String)
    → code c ≡ sep
    → has_char sep b ≡ false
    → rsplit_once sep (concat a (String.◌∷◌ c b)) ≡ some (a, b)
unfolding rsplit_once
rsplit_once-concat sep c String.[] b e h = ground (arith, rsplit_once-none sep b h)
rsplit_once-concat sep c (String.◌∷◌ d a) b e h = ground (arith, rsplit_once-concat sep c a b e h)

pub has_char-concat :
    (sep : ℕ) (a b : String) → has_char sep (concat a b) ≡ (has_char sep a || has_char sep b)
has_char-concat sep String.[] b = refl
has_char-concat sep (String.◌∷◌ c a) b = ground (arith, has_char-concat sep a b)

pub is_empty-concat : (a b : String) → is_empty (concat a b) ≡ (is_empty a && is_empty b)
is_empty-concat String.[] b = refl
is_empty-concat (String.◌∷◌ c a) b = refl

abbrev pub AllPlain : ℕ → List String → Type 0
AllPlain sep [] = Unit
AllPlain sep (p ∷ ps) = (has_char sep p ≡ false) × AllPlain sep ps

AllPlain-on_head :
    (sep : ℕ) (c : Char) (ps : List String)
    → nat_beq (code c) sep ≡ false
    → AllPlain sep ps
    → AllPlain sep (on_head c ps)
AllPlain-on_head sep c [] e h = (rw e, tt)
AllPlain-on_head sep c (p ∷ ps) e h = (rw e h.0, h.1)

-- No part of a split holds the separator.
pub split-AllPlain : (sep : ℕ) (s : String) → AllPlain sep (split sep s)
unfolding split
split-AllPlain sep String.[] = (refl, tt)
split-AllPlain sep (String.◌∷◌ c s) = elim (Bool-cases (nat_beq (code c) sep)) [
  | inl found ↦ rw found (refl, split-AllPlain sep s)
  | inr other ↦ rw other (AllPlain-on_head sep c (split sep s) other (split-AllPlain sep s))
]

pub split-join_two :
    (a b : String)
    → has_char b':' a ≡ false
    → has_char b':' b ≡ false
    → split b':' (join ":" (a ∷ b ∷ [])) ≡ a ∷ b ∷ []
split-join_two a b ha hb = rw (split-concat b':' ":" a b refl ha, split_none b':' b hb)

pub split-join_three :
    (a b c : String)
    → has_char b':' a ≡ false
    → has_char b':' b ≡ false
    → has_char b':' c ≡ false
    → split b':' (join ":" (a ∷ b ∷ c ∷ [])) ≡ a ∷ b ∷ c ∷ []
split-join_three a b c ha hb hc = rw (
  split-concat b':' ":" a (concat b (concat ":" c)) refl ha,
  split-concat b':' ":" b c refl hb,
  split_none b':' c hc,
)

split_test : split b':' "a:bc:" ≡ "a" ∷ "bc" ∷ "" ∷ []
unfolding split
split_test = refl

rsplit_once_test : rsplit_once b':' "a:bc:d" ≡ some ("a:bc", "d")
unfolding rsplit_once
rsplit_once_test = refl
