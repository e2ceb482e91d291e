-- ===== src/Config/Value.antt =====
-- The values of a Compose file, as YAML gives them, and dictionaries of them.
-- An integer is its number; no other kind of number is used by the model.
use docke_compose_customize.Prelude.{
  ℕ, String, Bool, true, false, Option, none, some, List, [], ◌∷◌, ◌==◌, string_eq, if◌then◌else◌,
}

mutual
  -- a dictionary, in the order of its keys
  pub data Fields : Type 0 where
    end : Fields
    field : String → Value → Fields → Fields

  pub data Value : Type 0 where
    str : String → Value
    num : ℕ → Value
    boolean : Bool → Value
    null : Value
    obj : Fields → Value
    arr : Items → Value

  pub data Items : Type 0 where
    cons : Value → Items → Items
    nil : Items

-- `d.get(key)`, with `none` for a key that is not there
abbrev pub get_field : String → Fields → Option Value
get_field key end = none
get_field key (field k v d) = let rest = get_field key d in if k == key then some v else rest

-- `key in d`
abbrev pub has_field : String → Fields → Bool
has_field key end = false
has_field key (field k v d) = let rest = has_field key d in if k == key then true else rest

-- `d[key] = v`
abbrev pub put_field : String → Value → Fields → Fields
put_field key v end = field key v end
put_field key v (field k w d) =
    let rest = put_field key v d in if k == key then field key v d else field k w rest

-- `d.pop(key, None)`
abbrev pub pop_field : String → Fields → Fields
pop_field key end = end
pop_field key (field k w d) =
    let rest = pop_field key d in if k == key then rest else field k w rest

-- `d.update(other)`
abbrev pub update_fields : Fields → Fields → Fields
update_fields d end = d
update_fields d (field k v other) = update_fields (put_field k v d) other

abbrev pub field_names : Fields → List String
field_names end = []
field_names (field k v d) = k ∷ field_names d

abbrev pub to_items : List Value → Items
to_items [] = nil
to_items (v ∷ vs) = cons v (to_items vs)

abbrev pub item_list : Items → List Value
item_list nil = []
item_list (cons v vs) = v ∷ item_list vs
