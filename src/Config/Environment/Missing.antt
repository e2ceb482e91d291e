-- ===== src/Config/Environment/Missing.antt =====
-- Reading variables: a missing one is the empty text, and it is noted once.
use docke_compose_customize.Prelude.{
  String, ◌≡◌, refl, ◌⊎◌, Bool, true, false, Option, none, some, List, [], ◌∷◌, ◌==◌, string_eq,
  elem, count, count-append, ◌+◌, bit, arith, if◌then◌else◌, Bool-cases, inl, inr,
}
use docke_compose_customize.Container.{get}
use docke_compose_customize.Config.Environment.{
  Environment, has_key, contains, note_missing, get_item,
}

has_key-get :
    (key : String) (vars : List (String × Option String))
    → (has_key key vars ≡ false) × (get key vars ≡ none)
      ⊎ (has_key key vars ≡ true) × ((v : Option String) × (get key vars ≡ some v))
has_key-get key [] = inl (refl, refl)
has_key-get key ((k, v) ∷ vars) = elim (Bool-cases (k == key)) [
  | inl same ↦ rw same (inr (refl, (v, refl)))
  | inr other ↦ rw other (has_key-get key vars)
]

-- what reading `key` leaves of `e`, where the variable is not set
abbrev pub Noted : Environment → String → Option String × Environment → Type 0
Noted e key (value, after) =
    (value ≡ some "")
    × (after.vars ≡ e.vars)
    × ((j : String)
        → count j after.missing_keys
          ≡ count j e.missing_keys + (if elem key e.missing_keys then 0 else bit (key == j)))

note_missing-Noted : (e : Environment) (key : String) → Noted e key (note_missing e key)
note_missing-Noted e key = elim (Bool-cases (elem key e.missing_keys)) [
  | inl old ↦ rw old (refl, refl, λ j. omega arith)
  | inr new ↦ rw new (refl, refl, λ j. ground (arith, count-append j e.missing_keys (key ∷ [])))
]

-- Reading a variable that is set notes nothing; one that is not set is read as the empty text, and
-- its name is noted unless it was noted before.
pub get_item-contains :
    (is_windows : Bool) (upper : String → String) (e : Environment) (key : String)
    → (contains is_windows upper e key ≡ true) × ((get_item is_windows upper e key).1 ≡ e)
      ⊎ (contains is_windows upper e key ≡ false) × Noted e key (get_item is_windows upper e key)
unfolding contains get_item
get_item-contains false upper e key = elim (has_key-get key e.vars) [
  | inl (absent, gone) ↦ rw gone (inr (absent, note_missing-Noted e key))
  | inr (present, (v, found)) ↦ rw found (inl (present, refl))
]
get_item-contains true upper e key = elim (has_key-get key e.vars) [
  | inl (absent, gone) ↦ elim (has_key-get (upper key) e.vars) [
    | inl (absent', gone') ↦
        rw (gone, gone') (inr (rw (absent, absent') refl, note_missing-Noted e key))
    | inr (present, (v, found)) ↦ rw (gone, found) (inl (rw (absent, present) refl, refl))
  ]
  | inr (present, (v, found)) ↦ rw found (inl (rw present refl, refl))
]
