-- ===== src/Config/Files/External.antt =====
-- What is loaded of a volume or network that is declared external.
use docke_compose_customize.Prelude.{
  ◌<◌, String, Bool, false, none, Option-cases, ◌≡◌, refl, sym, subst, ◌⊎◌, inl, inr, true, some,
  [], ◌∷◌, ◌==◌, string_eq, length, arith, Bool-cases,
}
use docke_compose_customize.Result.{ok, err, external_with_attributes}
use docke_compose_customize.Config.Value.{
  Value, null, boolean, num, str, arr, obj, Fields, end, field, get_field, field_names,
}
use docke_compose_customize.Config.Files.{is_true, external_name, load_item}

abbrev pub is_object : Value → Bool
is_object (obj d) = true
is_object v = false

-- the name outside of the project: what the declaration says of it, where it is an object, else the
-- name of the volume or network
pub data NameOf (name : String) : Value → Value → Type 0 where
  named : (d : Fields) (v : Value) → get_field "name" d ≡ some v → NameOf name (obj d) v
  unnamed : (d : Fields) → get_field "name" d ≡ none → NameOf name (obj d) null
  plain : (e : Value) → is_object e ≡ false → NameOf name e (str name)

external_name-NameOf :
    (name : String) (external : Value) → NameOf name external (external_name name external)
external_name-NameOf name (obj d) = elim (Option-cases (get_field "name" d)) [
  | inl missing ↦ rw missing (unnamed d missing)
  | inr (v, there) ↦ rw there (named d v there)
]
external_name-NameOf name null = plain null refl
external_name-NameOf name (boolean b) = plain (boolean b) refl
external_name-NameOf name (num n) = plain (num n) refl
external_name-NameOf name (str s) = plain (str s) refl
external_name-NameOf name (arr vs) = plain (arr vs) refl

declared_alone :
    (to_text : Value → String) (name : String) (external : Value)
    → is_true external ≡ true
    → load_item to_text name (obj (field "external" external end))
      ≡ ok (field "external" external (field "external_name" (external_name name external) end))
unfolding load_item
declared_alone to_text name external t = rw t refl

only_key :
    (k : String) (v external : Value)
    → get_field "external" (field k v end) ≡ some external
    → (k ≡ "external") × (v ≡ external)
only_key k v external h = elim (Bool-cases (k == "external")) [
  | inl same ↦ ((string_eq.beq_iff k "external").0 same, ground (arith, same, h))
  | inr other ↦ absurd (ground (arith, other, h))
]

with_external_name_lem :
    (to_text : Value → String) (name : String) (d : Fields) (external : Value)
    → get_field "external" d ≡ some external
    → is_true external ≡ true
    → ((1 < length (field_names d))
        × (load_item to_text name (obj d) ≡ err (external_with_attributes name)))
      ⊎ ((field_names d ≡ "external" ∷ [])
          × (load_item to_text name (obj d)
              ≡ ok (
                  field "external" external
                    (field "external_name" (external_name name external) end))))
unfolding load_item
with_external_name_lem to_text name end external h t = absurd (ground arith)
with_external_name_lem to_text name (field k v end) external h t =
    let (key, value) = only_key k v external h in
    inr (
      rw key refl,
      subst
          (λ j.
            load_item to_text name (obj (field j v end))
            ≡ ok (
                field "external" external
                  (field "external_name" (external_name name external) end)))
          (sym key)
          (subst
            (λ w.
              load_item to_text name (obj (field "external" w end))
              ≡ ok (
                  field "external" external
                    (field "external_name" (external_name name external) end)))
            (sym value) (declared_alone to_text name external t)),
    )
with_external_name_lem to_text name (field k v (field j w d)) external h t =
    inl (ground arith, rw h (rw t (ground arith)))

-- A volume or network that is declared external either has another attribute, and the error names
-- it, or it has none and becomes the declaration with the external name alone: the `name` of a
-- declaration that is an object, null where that has none, and else its own name.
pub load_item-external :
    (to_text : Value → String) (name : String) (d : Fields) (external : Value)
    → get_field "external" d ≡ some external
    → is_true external ≡ true
    → ((1 < length (field_names d))
        × (load_item to_text name (obj d) ≡ err (external_with_attributes name)))
      ⊎ ((field_names d ≡ "external" ∷ [])
          × ((v : Value) × NameOf name external v
              × (load_item to_text name (obj d)
                  ≡ ok (field "external" external (field "external_name" v end)))))
load_item-external to_text name d external h t =
    elim (with_external_name_lem to_text name d external h t) [
      | inl refused ↦ inl refused
      | inr (alone, loaded) ↦
          inr (alone, (external_name name external, external_name-NameOf name external, loaded))
    ]
