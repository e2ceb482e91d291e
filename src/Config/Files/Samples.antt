-- ===== src/Config/Files/Samples.antt =====
-- Compose files to evaluate the model on.
use docke_compose_customize.Prelude.{
  ℕ, ◌<◌, String, ◌≡◌, refl, ◌⊎◌, inl, inr, Bool, false, [], ◌∷◌, ◌==◌, string_eq, length, concat,
  if◌then◌else◌, arith, Bool-cases,
}
use docke_compose_customize.Result.{Result, ok, err, Returns, external_with_attributes}
use docke_compose_customize.Config.Value.{
  Value, str, obj, Fields, end, field, get_field, field_names, update_fields,
}
use docke_compose_customize.Config.Files.{find_candidates_in_parent_dirs, load_item, merge_all}
use docke_compose_customize.Config.Files.Search.{Ends, find_candidates_in_parent_dirs_lem}
use docke_compose_customize.Config.Files.Merged.{from_files, merged_over, extends_or, get-merge_all}
use docke_compose_customize.Config.Files.External.{NameOf, load_item-external}

-- two directories: the parent of each is the root
abbrev up : String → String → String
up path name = if name == ".." then "/" else concat path name

abbrev level : String → ℕ
level path = if path == "/" then 0 else 1

level-lower : (path : String) → (up path ".." == path) ≡ false → level (up path "..") < level path
level-lower path h = elim (Bool-cases (path == "/")) [
  | inl same ↦
      absurd (ground (arith, same, h, string_eq.beq_iff path "/", string_eq.beq_iff "/" path))
  | inr other ↦ rw other (omega arith)
]

abbrev only_root : String → Bool
only_root f = f == "/a.yml"

find_candidates_in_parent_dirs_lem_example :
    Returns
      (Ends up (λ p. p) only_root ("a.yml" ∷ []) "/home/")
      (find_candidates_in_parent_dirs up (λ p. p) only_root 2 ("a.yml" ∷ []) "/home/")
find_candidates_in_parent_dirs_lem_example =
    find_candidates_in_parent_dirs_lem up (λ p. p) only_root ("a.yml" ∷ []) level level-lower 2
      "/home/" (omega arith)

abbrev one_web : Fields
one_web = field "web" (obj (field "image" (str "nginx") end)) end

abbrev two_keys : Fields
two_keys = field "web" (obj (field "extends" (str "base") end)) end

abbrev merge : Fields → Fields → Result Fields
merge base override = ok (update_fields base override)

get-merge_all_example :
    Returns
      (λ services.
        get_field "web" services
        ≡ merged_over merge update_fields
            (λ base override. refl)
            "web"
            (get_field "web" one_web)
            (end ∷ two_keys ∷ []))
      (merge_all merge (one_web ∷ end ∷ two_keys ∷ []))
    × ((key : String) (base override : Fields)
        → get_field key (from_files merge update_fields (λ base override. refl) base override) ≡ (
            if key == "extends"
            then extends_or
                (get_field "extends" override)
                (get_field "extends" base)
                (get_field "extends" (update_fields base override))
            else get_field key (update_fields base override)))
get-merge_all_example =
    get-merge_all merge update_fields (λ base override. refl) "web" one_web (end ∷ two_keys ∷ [])

abbrev declared : Fields
declared = field "external" (obj (field "name" (str "data") end)) end

load_item-external_example :
    ((1 < length (field_names declared))
      × (load_item (λ v. "") "db" (obj declared) ≡ err (external_with_attributes "db")))
    ⊎ ((field_names declared ≡ "external" ∷ [])
        × ((v : Value) × NameOf "db" (obj (field "name" (str "data") end)) v
            × (load_item (λ v. "") "db" (obj declared)
                ≡ ok (
                    field "external"
                      (obj (field "name" (str "data") end))
                      (field "external_name" v end)))))
load_item-external_example =
    load_item-external (λ v. "") "db" declared (obj (field "name" (str "data") end)) refl refl
