-- ===== src/Config/Merge/Laws.antt =====
-- Which value a merged field has, and that path mappings are printed as they were read.
use docke_compose_customize.Result.{ok, err, ◌>>=◌, not_list_or_mapping}
use docke_compose_customize.Prelude.{
  String, ◌≡◌, refl, ap, subst, ◌⊎◌, ◌∙◌, false, ◌||◌, Option, none, some, List, [], ◌∷◌, map, elem,
  ◌==◌, string_eq, concat, concat_assoc, Joined, split_once-Joined, split_once, starts_with,
  if◌then◌else◌, arith, Bool-cases, inl, inr,
}
use docke_compose_customize.Container.{get, put, update}
use docke_compose_customize.Container.Dict.{get-put}
use docke_compose_customize.Config.Merge.{
  Arguments, items, mapping, of_other_type, Mapping, parse_dict_or_list, merge_mapping, path_pair,
  drive_of, split_path_mapping, join_path_mapping,
}

abbrev pub keys : Mapping → List String
keys [] = []
keys ((k, v) ∷ d) = k ∷ keys d

-- `x or y` of optional values
abbrev pub first_of : Option (Option String) → Option (Option String) → Option (Option String)
first_of none b = b
first_of (some a) b = some a

abbrev Distinct : Mapping → Type 0
Distinct [] = Unit
Distinct ((k, v) ∷ d) = (elem k (keys d) ≡ false) × Distinct d

elem-put :
    (j k : String) (v : Option String) (d : Mapping)
    → elem j (keys (put k v d)) ≡ (k == j || elem j (keys d))
elem-put j k v [] = refl
elem-put j k v ((i, w) ∷ d) = ground (arith, elem-put j k v d, string_eq.beq_iff i k)

put-Distinct : (k : String) (v : Option String) (d : Mapping) → Distinct d → Distinct (put k v d)
put-Distinct k v [] h = (refl, tt)
put-Distinct k v ((i, w) ∷ d) h = elim (Bool-cases (i == k)) [
  | inl same ↦ rw same (rw (← (string_eq.beq_iff i k).0 same) h)
  | inr other ↦ rw other (
    ground (arith, elem-put i k v d, string_eq.beq_iff k i, string_eq.beq_iff i k, h.0, other),
    put-Distinct k v d h.1,
  )
]

update-Distinct : (d e : Mapping) → Distinct d → Distinct (update d e)
update-Distinct d [] h = h
update-Distinct d ((k, v) ∷ e) h = update-Distinct (put k v d) e (put-Distinct k v d h)

get-absent : (j : String) (d : Mapping) → elem j (keys d) ≡ false → get j d ≡ none
get-absent j [] h = refl
get-absent j ((k, v) ∷ d) h = ground (arith, get-absent j d)

get-head :
    (j k : String) (v : Option String) (d e : Mapping)
    → elem k (keys e) ≡ false
    → first_of (get j e) (if k == j then some v else get j d)
      ≡ first_of (if k == j then some v else get j e) (get j d)
get-head j k v d e h = elim (Bool-cases (k == j)) [
  | inl same ↦ rw same (
      rw (get-absent j e (subst (λ i. elem i (keys e) ≡ false) ((string_eq.beq_iff k j).0 same) h))
        refl)
  | inr other ↦ rw other refl
]

get-update :
    (j : String) (d e : Mapping) → Distinct e → get j (update d e) ≡ first_of (get j e) (get j d)
get-update j d [] h = refl
get-update j d ((k, v) ∷ e) h =
    get-update j (put k v d) e h.1 ∙ (rw (get-put j k v d) (get-head j k v d e h.0))

parse-Distinct :
    (split_func : String → String × Option String) (arguments : Option Arguments)
    → ((parse_dict_or_list split_func arguments ≡ err not_list_or_mapping)
        × (arguments ≡ some of_other_type))
      ⊎ ((m : Mapping) × (parse_dict_or_list split_func arguments ≡ ok m) × Distinct m)
unfolding parse_dict_or_list
parse-Distinct split_func none = inr ([], refl, tt)
parse-Distinct split_func (some (items arguments)) =
    inr
      (update [] (map split_func arguments), refl, update-Distinct [] (map split_func arguments) tt)
parse-Distinct split_func (some (mapping arguments)) =
    inr (update [] arguments, refl, update-Distinct [] arguments tt)
parse-Distinct split_func (some of_other_type) = inl (refl, refl)

-- what the merging of two fields gives
abbrev pub MergedMapping :
    (String → String × Option String)
    → Option Arguments
    → Option Arguments
    → String
    → Mapping
    → Type 0
MergedMapping split_func base override key merged =
    (old : Mapping) × (new : Mapping) × (parse_dict_or_list split_func base ≡ ok old)
    × (parse_dict_or_list split_func override ≡ ok new)
    × (get key merged ≡ first_of (get key new) (get key old))

merge-needed :
    (split_func : String → String × Option String) (base override : Option Arguments) (key : String)
    → ((merge_mapping (parse_dict_or_list split_func) base override ≡ ok none)
        × (base ≡ none)
        × (override ≡ none))
      ⊎ (merge_mapping (parse_dict_or_list split_func) base override ≡ (
          parse_dict_or_list split_func base >>= λ merged.
          (parse_dict_or_list split_func override >>= λ more. ok (some (update merged more)))))
unfolding merge_mapping
merge-needed split_func none none key = inl (refl, refl, refl)
merge-needed split_func none (some override) key = inr refl
merge-needed split_func (some base) override key = inr refl

-- A merged mapping, such as `environment`, has the value of the extending service for each key that
-- this sets, and that of the extended service for the others; a service without such a field
-- sets no key. Merging fails only where one of the two fields is neither a list nor a mapping.
pub get-merge_mapping :
    (split_func : String → String × Option String) (base override : Option Arguments) (key : String)
    → ((merge_mapping (parse_dict_or_list split_func) base override ≡ ok none)
        × (base ≡ none)
        × (override ≡ none))
      ⊎ (((merge_mapping (parse_dict_or_list split_func) base override ≡ err not_list_or_mapping)
            × ((base ≡ some of_other_type) ⊎ (override ≡ some of_other_type)))
          ⊎ ((merged : Mapping) × (merge_mapping (parse_dict_or_list split_func) base override
                ≡ ok (some merged))
              × MergedMapping split_func base override key merged))
get-merge_mapping split_func base override key = elim (merge-needed split_func base override key) [
  | inl nothing ↦ inl nothing
  | inr both ↦ inr (elim (parse-Distinct split_func base) [
    | inl (fails, wrong) ↦ inl (both ∙ rw fails refl, inl wrong)
    | inr (old, parsed, unique) ↦ elim (parse-Distinct split_func override) [
      | inl (fails, wrong) ↦ inl (both ∙ rw (parsed, fails) refl, inr wrong)
      | inr (new, parsed', unique') ↦ inr (
        update old new,
        both ∙ rw (parsed, parsed') refl,
        (old, new, parsed, parsed', get-update key old new unique'),
      )
    ]
  ])
]

module _ (splitdrive : String → String × String)
    (parts : (path : String) → concat (splitdrive path).0 (splitdrive path).1 ≡ path) where
  drive_of-parts :
      (path : String) → concat (drive_of splitdrive path).0 (drive_of splitdrive path).1 ≡ path
  drive_of-parts path = elim (Bool-cases (starts_with path "." || starts_with path "~")) [
    | inl relative ↦ rw relative refl
    | inr absolute ↦ rw absolute (parts path)
  ]

  join-path_pair :
      (path drive config : String) (found : Option (String × String))
      → concat drive config ≡ path
      → Joined ":" config found
      → join_path_mapping splitdrive (path_pair path drive found) ≡ path
  unfolding join_path_mapping
  join-path_pair path drive config none h joined = refl
  join-path_pair path drive config (some (host, container)) h joined =
      concat_assoc drive host (concat ":" container) ∙ ap (concat drive) joined.0 ∙ h

  -- A path mapping is printed as it was read, where the drive and the rest that splitdrive finds
  -- make up the path.
  pub join-split_path_mapping :
      (volume_path : String)
      → join_path_mapping splitdrive (split_path_mapping splitdrive volume_path) ≡ volume_path
  unfolding split_path_mapping
  join-split_path_mapping volume_path =
      join-path_pair volume_path (drive_of splitdrive volume_path).0
        (drive_of splitdrive volume_path).1 (split_once b':' (drive_of splitdrive volume_path).1)
        (drive_of-parts volume_path) (split_once-Joined ":" (drive_of splitdrive volume_path).1)
