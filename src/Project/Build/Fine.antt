-- ===== src/Project/Build/Fine.antt =====
-- Results that are no error about a service that is not there.
use docke_compose_customize.Prelude.{
  String, ◌≡◌, refl, Bool, true, false, ◌&&◌, List, [], ◌∷◌, ◌++◌, map, string_eq, all, arith,
}
use docke_compose_customize.Result.{
  Error, Result, ok, err, no_such_service, invalid_link, invalid_volumes_from, ◌>>=◌, traverse,
}

-- the errors about a service that is not there
abbrev pub is_reference : Error → Bool
is_reference (no_such_service name) = true
is_reference (invalid_link service name) = true
is_reference (invalid_volumes_from service name) = true
is_reference e = false

-- a value with the property, or another error
abbrev pub Fine {ℓ} : {A : Type ℓ} → (A → Type 0) → Result A → Type 0
Fine Q (ok a) = Q a
Fine Q (err e) = is_reference e ≡ false

pub Fine-bind {ℓ κ} :
    {A : Type ℓ} {B : Type κ} (P : A → Type 0) (Q : B → Type 0) (r : Result A) (f : A → Result B)
    → Fine P r
    → ((a : A) → P a → Fine Q (f a))
    → Fine Q (r >>= f)
Fine-bind P Q (ok a) f h k = k a h
Fine-bind P Q (err e) f h k = h

pub Fine-map {ℓ} :
    {A : Type ℓ} (P Q : A → Type 0) (r : Result A) → ((a : A) → P a → Q a) → Fine P r → Fine Q r
Fine-map P Q (ok a) f h = f a h
Fine-map P Q (err e) f h = h

pub traverse-Fine {ℓ κ} :
    {A : Type ℓ} {B : Type κ} (f : A → Result B) (p : A → Bool) (q : B → Bool)
    → ((a : A) → p a ≡ true → Fine (λ b. q b ≡ true) (f a))
    → (xs : List A) → all p xs ≡ true
    → Fine (λ ys. all q ys ≡ true) (traverse f xs)
traverse-Fine f p q each [] h = refl
traverse-Fine f p q each (x ∷ xs) h =
    Fine-bind (λ y. q y ≡ true) (λ ys. all q ys ≡ true) (f x)
      (λ y. traverse f xs >>= λ ys. ok (y ∷ ys)) (each x (ground (arith, h)))
      (λ y good.
        Fine-bind (λ ys. all q ys ≡ true) (λ ys. all q ys ≡ true) (traverse f xs)
          (λ ys. ok (y ∷ ys)) (traverse-Fine f p q each xs (ground (arith, h)))
          (λ ys rest. ground (arith, good, rest)))

pub all-map {ℓ κ} :
    {A : Type ℓ} {B : Type κ} (p : B → Bool) (f : A → B) (xs : List A)
    → all p (map f xs) ≡ all (λ x. p (f x)) xs
all-map p f [] = refl
all-map p f (x ∷ xs) = ground (arith, all-map p f xs)

pub all-append :
    (p : String → Bool) (xs ys : List String) → all p (xs ++ ys) ≡ (all p xs && all p ys)
all-append p [] ys = refl
all-append p (x ∷ xs) ys = ground (arith, all-append p xs ys)
