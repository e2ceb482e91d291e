-- ===== src/Config/Interpolation/Laws.antt =====
-- What becomes of the texts in a value.
use mathlib.Core.List.{map-append}
use docke_compose_customize.Prelude.{
  String, ◌≡◌, refl, ap, sym, ◌∙◌, ◌⊎◌, inl, inr, true, Option, none, some, List, [], ◌∷◌, ◌++◌,
  map, elem, elem-append, string_eq, eq_refl, arith,
}
use docke_compose_customize.Result.{Result, ok, err, invalid_interpolation, ◌>>=◌}
use docke_compose_customize.Config.Value.{
  Value, null, boolean, num, str, arr, obj, Items, nil, cons, Fields, end, field,
}
use docke_compose_customize.Config.Interpolation.{
  substituted, interpolate, recursive_interpolate, interpolate_items, interpolate_fields,
}

-- the texts of a value, in order; names of fields are none of them
unfoldable mutual
  pub strings : Value → List String
  strings (str s) = s ∷ []
  strings (arr vs) = strings_items vs
  strings (obj d) = strings_fields d
  strings null = []
  strings (boolean b) = []
  strings (num n) = []

  pub strings_items : Items → List String
  strings_items nil = []
  strings_items (cons v vs) = strings v ++ strings_items vs

  pub strings_fields : Fields → List String
  strings_fields end = []
  strings_fields (field k v d) = strings v ++ strings_fields d

-- the value with its texts taken out
unfoldable mutual
  pub shape : Value → Value
  shape (str s) = str ""
  shape (arr vs) = arr (shape_items vs)
  shape (obj d) = obj (shape_fields d)
  shape null = null
  shape (boolean b) = boolean b
  shape (num n) = num n

  pub shape_items : Items → Items
  shape_items nil = nil
  shape_items (cons v vs) = cons (shape v) (shape_items vs)

  pub shape_fields : Fields → Fields
  shape_fields end = end
  shape_fields (field k v d) = field k (shape v) (shape_fields d)

module _ (substitute : String → Option String) where
  -- `r` is a value of the same form with each text of `v` substituted, or the error of a text of
  -- `v` that cannot be.
  abbrev pub Substituted : {A : Type 0} → (A → List String) → (A → A) → A → Result A → Type 0
  Substituted {A} texts form v r =
      ((w : A) × (r ≡ ok w) × (form w ≡ form v) × (map substitute (texts v) ≡ map some (texts w)))
      ⊎ ((s : String) × (r ≡ err (invalid_interpolation s))
          × (elem s (texts v) ≡ true)
          × (substitute s ≡ none))

  both :
      {A B C : Type 0} (K : A → B → C) (texts_a : A → List String) (texts_b : B → List String)
      (texts : C → List String) (form_a : A → A) (form_b : B → B) (form : C → C)
      → ((a : A) (b : B) → texts (K a b) ≡ texts_a a ++ texts_b b)
      → ((a : A) (b : B) → form (K a b) ≡ K (form_a a) (form_b b))
      → (a : A) (b : B) (ra : Result A) (rb : Result B) → Substituted texts_a form_a a ra
      → Substituted texts_b form_b b rb
      → Substituted texts form (K a b) (ra >>= λ w. (rb >>= λ ws. ok (K w ws)))
  both K texts_a texts_b texts form_a form_b form split same a b ra rb
        (inr (s, fails, member, missing)) hb =
      inr (
        s,
        rw fails refl,
        rw (split a b) (rw (elem-append s (texts_a a) (texts_b b)) (rw member refl)),
        missing,
      )
  both K texts_a texts_b texts form_a form_b form split same a b ra rb
        (inl (w, fine, formed, mapped)) (inr (s, fails, member, missing)) =
      inr (
        s,
        rw (fine, fails) refl,
        rw (split a b) (rw (elem-append s (texts_a a) (texts_b b)) (ground (arith, member))),
        missing,
      )
  both K texts_a texts_b texts form_a form_b form split same a b ra rb
        (inl (w, fine, formed, mapped)) (inl (ws, fine_b, formed_b, mapped_b)) =
      inl (
        K w ws,
        rw (fine, fine_b) refl,
        same w ws ∙ rw (formed, formed_b) refl ∙ sym (same a b),
        ap (map substitute) (split a b)
            ∙ map-append substitute (texts_a a) (texts_b b)
            ∙ rw (mapped, mapped_b) refl
            ∙ sym (map-append some (texts_a w) (texts_b ws))
            ∙ ap (map some) (sym (split w ws)),
      )

  one :
      {A B : Type 0} (K : A → B) (texts_a : A → List String) (texts : B → List String)
      (form_a : A → A) (form : B → B)
      → ((a : A) → texts (K a) ≡ texts_a a)
      → ((a : A) → form (K a) ≡ K (form_a a))
      → (a : A) (ra : Result A) → Substituted texts_a form_a a ra
      → Substituted texts form (K a) (ra >>= λ w. ok (K w))
  one K texts_a texts form_a form split same a ra (inr (s, fails, member, missing)) =
      inr (s, rw fails refl, rw (split a) member, missing)
  one K texts_a texts form_a form split same a ra (inl (w, fine, formed, mapped)) = inl (
    K w,
    rw fine refl,
    same w ∙ ap K formed ∙ sym (same a),
    ap (map substitute) (split a) ∙ mapped ∙ ap (map some) (sym (split w)),
  )

  text :
      (s : String) (found : Option String)
      → substitute s ≡ found
      → Substituted strings shape (str s) (substituted substitute s found >>= λ t. ok (str t))
  unfolding strings shape
  text s none h = inr (s, refl, rw (eq_refl s) refl, h)
  text s (some t) h = inl (str t, refl, refl, rw h refl)

  mutual
    unfolding recursive_interpolate interpolate strings shape

    value_lem : (v : Value) → Substituted strings shape v (recursive_interpolate substitute v)
    value_lem null = inl (null, refl, refl, refl)
    value_lem (boolean b) = inl (boolean b, refl, refl, refl)
    value_lem (num n) = inl (num n, refl, refl, refl)
    value_lem (str s) = text s (substitute s) refl
    value_lem (arr vs) =
        one arr strings_items strings shape_items shape (λ a. refl) (λ a. refl) vs
          (interpolate_items substitute vs) (items_lem vs)
    value_lem (obj d) =
        one obj strings_fields strings shape_fields shape (λ a. refl) (λ a. refl) d
          (interpolate_fields substitute d) (fields_lem d)

    items_lem :
        (vs : Items) → Substituted strings_items shape_items vs (interpolate_items substitute vs)
    items_lem nil = inl (nil, refl, refl, refl)
    items_lem (cons v vs) =
        both cons strings strings_items strings_items shape shape_items shape_items (λ a b. refl)
          (λ a b. refl) v vs (recursive_interpolate substitute v) (interpolate_items substitute vs)
          (value_lem v) (items_lem vs)

    fields_lem :
        (d : Fields) → Substituted strings_fields shape_fields d (interpolate_fields substitute d)
    fields_lem end = inl (end, refl, refl, refl)
    fields_lem (field k v d) =
        both (field k) strings strings_fields strings_fields shape shape_fields shape_fields
          (λ a b. refl) (λ a b. refl) v d (recursive_interpolate substitute v)
          (interpolate_fields substitute d) (value_lem v) (fields_lem d)

  -- Interpolation either gives a value of the same form, with the same names of fields, where each
  -- text is substituted, or raises for a text of the value that cannot be substituted.
  pub recursive_interpolate_lem :
      (v : Value) → Substituted strings shape v (recursive_interpolate substitute v)
  recursive_interpolate_lem v = value_lem v
