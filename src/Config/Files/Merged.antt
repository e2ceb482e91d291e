-- ===== src/Config/Files/Merged.antt =====
-- Which services several Compose files give together.
use docke_compose_customize.Prelude.{
  String, ◌≡◌, refl, ap, ◌∙◌, true, false, ◌||◌, Bool-cases, Option-cases, inl, inr, Option, none,
  some, List, [], ◌∷◌, ◌++◌, ◌==◌, string_eq, elem, elem-append, arith, if◌then◌else◌,
}
use docke_compose_customize.Result.{Result, ok, ◌>>=◌, Returns, Returns-bind, Returns-map}
use docke_compose_customize.Config.Value.{
  Value, obj, Fields, end, field, get_field, has_field, put_field, field_names,
}
use docke_compose_customize.Config.Files.{
  with_extends, merge_service_dicts_from_files, service_or, merge_named, merge_services, merge_each,
  merge_all,
}

get_field-put_field :
    (j k : String) (v : Value) (d : Fields)
    → get_field j (put_field k v d) ≡ (if k == j then some v else get_field j d)
get_field-put_field j k v end = refl
get_field-put_field j k v (field i w d) = ground (
  arith,
  get_field-put_field j k v d,
  string_eq.beq_iff i k,
  string_eq.beq_iff i j,
  string_eq.beq_iff k j,
)

elem-field_names : (name : String) (d : Fields) → elem name (field_names d) ≡ has_field name d
elem-field_names name end = refl
elem-field_names name (field k v d) = ground (arith, elem-field_names name d)

has_field-some :
    (name : String) (v : Value) (d : Fields) → get_field name d ≡ some v → has_field name d ≡ true
has_field-some name v end h = cc
has_field-some name v (field k w d) h = ground (arith, h, has_field-some name v d)

has_field-none : (name : String) (d : Fields) → get_field name d ≡ none → has_field name d ≡ false
has_field-none name end h = refl
has_field-none name (field k w d) h = ground (arith, h, has_field-none name d)

-- `extends` of the overriding service, else of the other, else what the merging makes of it
abbrev pub extends_or : Option Value → Option Value → Option Value → Option Value
extends_or (some v) old new = some v
extends_or none (some v) new = some v
extends_or none none new = new

put_extends :
    (key : String) (v : Value) (d : Fields)
    → get_field key (put_field "extends" v d)
      ≡ (if key == "extends" then some v else get_field key d)
put_extends key v d =
    get_field-put_field key "extends" v d
    ∙ ground (arith, string_eq.beq_iff "extends" key, string_eq.beq_iff key "extends")

plain_key :
    (key : String) (d : Fields)
    → get_field key d ≡ (if key == "extends" then get_field "extends" d else get_field key d)
plain_key key d = elim (Bool-cases (key == "extends")) [
  | inl same ↦ rw ((string_eq.beq_iff key "extends").0 same) refl
  | inr other ↦ rw other refl
]

-- `merge` is merge_service_dicts, and `merged` what it gives
module _ (merge : Fields → Fields → Result Fields) (merged : Fields → Fields → Fields)
    (gives : (base override : Fields) → merge base override ≡ ok (merged base override)) where
  -- what two files say of a service, merged
  abbrev pub from_files : Fields → Fields → Fields
  from_files base override =
      with_extends (get_field "extends" override) (get_field "extends" base) (merged base override)

  -- a service of two files, where one of them has it
  abbrev pub merged_two : Option Value → Option Value → Option Value
  merged_two none none = none
  merged_two (some v) next = some (obj (from_files (service_or (some v)) (service_or next)))
  merged_two none (some w) = some (obj (from_files end (service_or (some w))))

  -- a service of several files, from the first to the last
  abbrev pub merged_over : String → Option Value → List Fields → Option Value
  merged_over name found [] = found
  merged_over name found (d ∷ ds) = merged_over name (merged_two found (get_field name d)) ds

  from_files-given :
      (base override : Fields)
      → Returns
          (λ d. d ≡ from_files base override)
          (merge_service_dicts_from_files merge base override)
  unfolding merge_service_dicts_from_files
  from_files-given base override = rw (gives base override) refl

  module _ (base override : Fields) where
    abbrev one : String → Fields
    one name = from_files (service_or (get_field name base)) (service_or (get_field name override))

    -- the services of the names, and no other
    abbrev IsMerged : String → List String → Fields → Type 0
    IsMerged name names services =
        get_field name services ≡ (if elem name names then some (obj (one name)) else none)

    get-merge_named :
        (name : String) (names : List String)
        → Returns (IsMerged name names) (merge_named merge base override names)
    get-merge_named name [] = refl
    get-merge_named name (n ∷ names) =
        Returns-bind (λ d. d ≡ one n) (IsMerged name (n ∷ names))
          (merge_service_dicts_from_files merge (service_or (get_field n base))
            (service_or (get_field n override)))
          (λ service. merge_named merge base override names >>= λ services.
            ok (put_field n (obj service) services))
          (from_files-given (service_or (get_field n base)) (service_or (get_field n override)))
          (λ d same.
            Returns-bind (IsMerged name names) (IsMerged name (n ∷ names))
              (merge_named merge base override names)
              (λ services. ok (put_field n (obj d) services)) (get-merge_named name names)
              (λ services rest.
                get_field-put_field name n (obj d) services
                ∙ ground (arith, string_eq.beq_iff n name, rest, same)))

    merged_two-has_field :
        (name : String)
        → (if has_field name base || has_field name override then some (obj (one name)) else none)
          ≡ merged_two (get_field name base) (get_field name override)
    merged_two-has_field name = elim (Option-cases (get_field name base)) [
      | inl absent ↦ elim (Option-cases (get_field name override)) [
        | inl nowhere ↦
            rw
              (
                has_field-none name base absent,
                has_field-none name override nowhere,
                absent,
                nowhere,
              )
              refl
        | inr (w, new) ↦
            rw (has_field-none name base absent, has_field-some name w override new, absent, new)
              refl
      ]
      | inr (v, old) ↦ rw (has_field-some name v base old, old) refl
    ]

    get-merge_services :
        (name : String)
        → Returns
            (λ services.
              get_field name services ≡ merged_two (get_field name base) (get_field name override))
            (merge_services merge base override)
    unfolding merge_services
    get-merge_services name =
        Returns-map (IsMerged name (field_names base ++ field_names override))
          (λ services.
            get_field name services ≡ merged_two (get_field name base) (get_field name override))
          (merge_named merge base override (field_names base ++ field_names override))
          (λ services found.
            found
            ∙ (ground (
              arith,
              elem-append name (field_names base) (field_names override),
              elem-field_names name base,
              elem-field_names name override,
            )
                ∙ merged_two-has_field name))
          (get-merge_named name (field_names base ++ field_names override))

  get-merge_each :
      (name : String) (d : Fields) (ds : List Fields)
      → Returns
          (λ services. get_field name services ≡ merged_over name (get_field name d) ds)
          (merge_each merge d ds)
  unfolding merge_each
  get-merge_each name d [] = refl
  get-merge_each name d (e ∷ ds) =
      Returns-bind
        (λ services. get_field name services ≡ merged_two (get_field name d) (get_field name e))
        (λ services. get_field name services ≡ merged_over name (get_field name d) (e ∷ ds))
        (merge_services merge d e) (λ services. merge_each merge services ds)
        (get-merge_services d e name)
        (λ first h.
          Returns-map
            (λ services. get_field name services ≡ merged_over name (get_field name first) ds)
            (λ services. get_field name services ≡ merged_over name (get_field name d) (e ∷ ds))
            (merge_each merge first ds)
            (λ services k. k ∙ ap (λ found. merged_over name found ds) h)
            (get-merge_each name first ds))

  get-from_files :
      (key : String) (base override : Fields)
      → get_field key (from_files base override) ≡ (
          if key == "extends"
          then extends_or
              (get_field "extends" override)
              (get_field "extends" base)
              (get_field "extends" (merged base override))
          else get_field key (merged base override))
  get-from_files key base override = elim (Option-cases (get_field "extends" override)) [
    | inr (v, new) ↦ rw new (put_extends key v (merged base override))
    | inl kept ↦ elim (Option-cases (get_field "extends" base)) [
      | inr (v, old) ↦ rw (kept, old) (put_extends key v (merged base override))
      | inl absent ↦ rw (kept, absent) (plain_key key (merged base override))
    ]
  ]

  pub get-merge_all :
      (name : String) (d : Fields) (ds : List Fields)
      → Returns
          (λ services. get_field name services ≡ merged_over name (get_field name d) ds)
          (merge_all merge (d ∷ ds))
        × ((key : String) (base override : Fields)
            → get_field key (from_files base override) ≡ (
                if key == "extends"
                then extends_or
                    (get_field "extends" override)
                    (get_field "extends" base)
                    (get_field "extends" (merged base override))
                else get_field key (merged base override)))
  unfolding merge_all
  get-merge_all name d ds = (get-merge_each name d ds, get-from_files)
