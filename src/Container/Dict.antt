-- ===== src/Container/Dict.antt =====
-- What dictionaries that are written with put and update contain.
use docke_compose_customize.Prelude.{
  String, ◌≡◌, refl, some, List, [], ◌∷◌, ◌++◌, map, ◌==◌, string_eq, if◌then◌else◌, arith,
}
use docke_compose_customize.Container.{get, put, update}

module _ {ℓ} {V : Type ℓ} where
  pub get-put :
      (j k : String) (v : V) (d : List (String × V))
      → get j (put k v d) ≡ (if k == j then some v else get j d)
  get-put j k v [] = refl
  get-put j k v ((i, w) ∷ d) =
      ground (
        arith,
        get-put j k v d,
        string_eq.beq_iff i k,
        string_eq.beq_iff i j,
        string_eq.beq_iff k j,
      )

  pub update-map_append {κ} :
      {A : Type κ} (f : A → String × V) (xs ys : List A) (d : List (String × V))
      → update d (map f (xs ++ ys)) ≡ update (update d (map f xs)) (map f ys)
  update-map_append f [] ys d = refl
  update-map_append f (x ∷ xs) ys d = update-map_append f xs ys (put (f x).0 (f x).1 d)
