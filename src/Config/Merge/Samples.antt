-- ===== src/Config/Merge/Samples.antt =====
-- Services to evaluate the merge on.
use docke_compose_customize.Prelude.{String, ◌≡◌, refl, ◌⊎◌, Option, none, some, [], ◌∷◌, concat}
use docke_compose_customize.Result.{ok, err, not_list_or_mapping}
use docke_compose_customize.Config.Merge.{
  split_env, Arguments, items, mapping, of_other_type, Mapping, parse_dict_or_list, merge_mapping,
  split_path_mapping, join_path_mapping, dict_from_path_mappings, path_mappings_from_dict,
  merge_path_mappings,
}
use docke_compose_customize.Config.Merge.Laws.{
  MergedMapping, get-merge_mapping, join-split_path_mapping,
}
use docke_compose_customize.Prelude.{split_once, Bool, true}

abbrev base : Option Arguments
base = some (items ("A=1" ∷ "B" ∷ []))

abbrev override : Option Arguments
override = some (mapping (("B", some "2") ∷ []))

merge_two :
    merge_mapping (parse_dict_or_list split_env) base override
    ≡ ok (some (("A", some "1") ∷ ("B", some "2") ∷ []))
unfolding merge_mapping parse_dict_or_list split_env split_once
merge_two = refl

get-merge_mapping_example :
    ((merge_mapping (parse_dict_or_list split_env) base override ≡ ok none)
      × (base ≡ none)
      × (override ≡ none))
    ⊎ (((merge_mapping (parse_dict_or_list split_env) base override ≡ err not_list_or_mapping)
          × ((base ≡ some of_other_type) ⊎ (override ≡ some of_other_type)))
        ⊎ ((merged : Mapping) × (merge_mapping (parse_dict_or_list split_env) base override
              ≡ ok (some merged))
            × MergedMapping split_env base override "B" merged))
get-merge_mapping_example = get-merge_mapping split_env base override "B"

-- paths without a drive
abbrev no_drive : String → String × String
no_drive path = ("", path)

no_drive_parts : (path : String) → concat (no_drive path).0 (no_drive path).1 ≡ path
no_drive_parts path = refl

abbrev keep_order : String → String → Bool
keep_order a b = true

merge_paths :
    merge_path_mappings no_drive keep_order (some ("./a:/x" ∷ "/y" ∷ [])) (some ("/b:/x" ∷ []))
    ≡ "/b:/x" ∷ "/y" ∷ []
unfolding merge_path_mappings dict_from_path_mappings path_mappings_from_dict split_path_mapping
    join_path_mapping split_once
merge_paths = refl

join-split_path_mapping_example :
    join_path_mapping no_drive (split_path_mapping no_drive "/a:/b:ro") ≡ "/a:/b:ro"
join-split_path_mapping_example = join-split_path_mapping no_drive no_drive_parts "/a:/b:ro"
