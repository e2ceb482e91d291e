-- ===== src/Prelude/Lists.antt =====
-- Lists over the native numbers: lengths, membership tests, removal, folds that may fail.
use Prim.Native.Nat.{ℕ, ◌≤◌, ◌<◌, suc, ◌+◌}
use mathlib.Core.Path.{◌≡◌, refl}
use mathlib.Core.Logic.{◌≢◌, inl, inr}
use mathlib.Core.Bool.{Bool, true, false, not, ◌&&◌, ◌||◌}
use mathlib.Core.List.{List, [], ◌∷◌, ◌++◌}
use mathlib.Core.List.{Perm}
use mathlib.Core.List.Perm
use native.Mathlib.Omega.{arith}
use docke_compose_customize.Prelude.Tests.{Eq, ◌==◌, if◌then◌else◌, Bool-cases, eq_refl}

module _ {ℓ} {A : Type ℓ} where
  abbrev pub length : List A → ℕ
  length [] = 0
  length (x ∷ xs) = suc (length xs)

  -- `[x for x in xs if p(x)]`
  abbrev pub filter : (A → Bool) → List A → List A
  filter p [] = []
  filter p (x ∷ xs) = let rest = filter p xs in if p x then x ∷ rest else rest

  abbrev pub any : (A → Bool) → List A → Bool
  any p [] = false
  any p (x ∷ xs) = p x || any p xs

  abbrev pub all : (A → Bool) → List A → Bool
  all p [] = true
  all p (x ∷ xs) = p x && all p xs

  -- a predicate of every element
  abbrev pub All {κ} : (A → Type κ) → List A → Type κ
  All P [] = Unit
  All P (x ∷ xs) = P x × All P xs

  pub length-append : (xs ys : List A) → length (xs ++ ys) ≡ length xs + length ys
  length-append [] ys = omega arith
  length-append (x ∷ xs) ys = omega (arith, length-append xs ys)

abbrev pub bit : Bool → ℕ
bit true = 1
bit false = 0

module _ {ℓ} {A : Type ℓ} ⦃e : Eq A⦄ where
  -- `xs.count(a)`
  abbrev pub count : A → List A → ℕ
  count a [] = 0
  count a (x ∷ xs) = bit (x == a) + count a xs

  -- `x in xs`
  abbrev pub elem : A → List A → Bool
  elem a [] = false
  elem a (x ∷ xs) = x == a || elem a xs

  -- `xs.remove(a)`: the first occurrence
  abbrev pub remove : A → List A → List A
  remove a [] = []
  remove a (x ∷ xs) = if x == a then xs else x ∷ remove a xs

module _ {ℓ} {A : Type ℓ} ⦃e : Eq A⦄ where
  pub elem-append : (a : A) (xs ys : List A) → elem a (xs ++ ys) ≡ (elem a xs || elem a ys)
  elem-append a [] ys = refl
  elem-append a (x ∷ xs) ys = ground (arith, elem-append a xs ys)

  pub elem-filter : (a : A) (p : A → Bool) (xs : List A) → elem a (filter p xs) ≡ (p a && elem a xs)
  elem-filter a p [] = ground arith
  elem-filter a p (x ∷ xs) = ground (arith, elem-filter a p xs, e.beq_iff x a)

  pub elem-remove_ne : (a b : A) (xs : List A) → a ≢ b → elem a (remove b xs) ≡ elem a xs
  elem-remove_ne a b [] h = refl
  elem-remove_ne a b (x ∷ xs) h =
      ground (arith, elem-remove_ne a b xs h, e.beq_iff x a, e.beq_iff x b)

  pub remove-perm : (a : A) (xs : List A) → elem a xs ≡ true → Perm xs (a ∷ remove a xs)
  remove-perm a [] h = absurd (ground arith)
  remove-perm a (x ∷ xs) h = elim (Bool-cases (x == a)) [
    | inl same ↦ rw same (rw ((e.beq_iff x a).0 same) (Perm.refl (a ∷ xs)))
    | inr other ↦
        rw other
          (Perm.trans (Perm.cons x (remove-perm a xs (ground arith))) (Perm.swap a x (remove a xs)))
  ]

  pub All-elem {κ} : (P : A → Type κ) (xs : List A) (a : A) → All P xs → elem a xs ≡ true → P a
  All-elem P [] a h m = absurd (ground arith)
  All-elem P (x ∷ xs) a h m = ground (arith, e.beq_iff x a, All-elem P xs a h.1)

  pub All-of_elem {κ} :
      (P : A → Type κ) (xs : List A) → ((a : A) → elem a xs ≡ true → P a) → All P xs
  All-of_elem P [] h = tt
  All-of_elem P (x ∷ xs) h = (h x (rw (eq_refl x)), All-of_elem P xs (λ a m. h a (ground arith)))

  pub elem_of-remove : (a b : A) (xs : List A) → elem a (remove b xs) ≡ true → elem a xs ≡ true
  elem_of-remove a b [] h = h
  elem_of-remove a b (x ∷ xs) h = ground (arith, elem_of-remove a b xs)

  pub length-remove :
      (a : A) (xs : List A) → elem a xs ≡ true → suc (length (remove a xs)) ≡ length xs
  length-remove a [] h = absurd (ground arith)
  length-remove a (x ∷ xs) h = ground (arith, length-remove a xs)

  pub length-remove-le : (a : A) (xs : List A) → length (remove a xs) ≤ length xs
  length-remove-le a [] = omega arith
  length-remove-le a (x ∷ xs) = ground (arith, length-remove-le a xs)

  pub all-elem :
      (p : A → Bool) (xs : List A) (a : A) → all p xs ≡ true → elem a xs ≡ true → p a ≡ true
  all-elem p [] a h m = cc
  all-elem p (x ∷ xs) a h m = elim (Bool-cases (x == a)) [
    | inl same ↦ rw (← (e.beq_iff x a).0 same) (ground arith)
    | inr other ↦ all-elem p xs a (ground arith) (ground arith)
  ]

  pub count-remove :
      (a b : A) (xs : List A) → elem b xs ≡ true → count a (remove b xs) + bit (b == a) ≡ count a xs
  count-remove a b [] h = absurd (ground arith)
  count-remove a b (x ∷ xs) h = elim (Bool-cases (x == b)) [
    | inl same ↦ rw same (rw ((e.beq_iff x b).0 same) (omega arith))
    | inr other ↦ rw other (omega (arith, count-remove a b xs (ground arith)))
  ]

  pub count-filter :
      (a : A) (p : A → Bool) (xs : List A) → count a (filter p xs) ≡ (if p a then count a xs else 0)
  count-filter a p [] = ground arith
  count-filter a p (x ∷ xs) = ground (arith, count-filter a p xs, e.beq_iff x a)

  pub count-pos_of_elem : (a : A) (xs : List A) → elem a xs ≡ true → 0 < count a xs
  count-pos_of_elem a [] h = cc
  count-pos_of_elem a (x ∷ xs) h = ground (arith, count-pos_of_elem a xs)

  pub count-zero_of_not-elem : (a : A) (xs : List A) → elem a xs ≡ false → count a xs ≡ 0
  count-zero_of_not-elem a [] h = refl
  count-zero_of_not-elem a (x ∷ xs) h = ground (arith, count-zero_of_not-elem a xs)

  pub count-append : (a : A) (xs ys : List A) → count a (xs ++ ys) ≡ count a xs + count a ys
  count-append a [] ys = omega arith
  count-append a (x ∷ xs) ys = omega (arith, count-append a xs ys)

  pub elem_of_count-pos : (a : A) (xs : List A) → 0 < count a xs → elem a xs ≡ true
  elem_of_count-pos a [] h = absurd (omega arith)
  elem_of_count-pos a (x ∷ xs) h = ground (arith, elem_of_count-pos a xs)

module _ {ℓ} {A : Type ℓ} ⦃e : Eq A⦄ where
  count-remove-le :
      (x : A) (xs ys : List A)
      → ((a : A) → count a (x ∷ xs) ≤ count a ys)
      → (elem x ys ≡ true) × ((a : A) → count a xs ≤ count a (remove x ys))
  count-remove-le x xs ys h =
      let here = elem_of_count-pos x ys (ground (arith, h x, eq_refl x)) in
      (here, λ a. omega (arith, h a, count-remove a x ys here))

  -- A list that holds nothing more often than another is not longer.
  pub length-le_of_count :
      (xs ys : List A) → ((a : A) → count a xs ≤ count a ys) → length xs ≤ length ys
  length-le_of_count [] ys h = omega arith
  length-le_of_count (x ∷ xs) ys h =
      let (here, rest) = count-remove-le x xs ys h in
      omega (arith, length-remove x ys here, length-le_of_count xs (remove x ys) rest)

  -- If it is also as long, it holds everything as often.
  pub count-le_of_length :
      (xs ys : List A)
      → ((a : A) → count a xs ≤ count a ys)
      → length ys ≤ length xs
      → (a : A) → count a ys ≤ count a xs
  count-le_of_length [] [] h k a = omega arith
  count-le_of_length [] (y ∷ ys) h k a = absurd (omega arith)
  count-le_of_length (x ∷ xs) ys h k a =
      let (here, rest) = count-remove-le x xs ys h in
      omega (
        arith,
        count-remove a x ys here,
        length-remove x ys here,
        count-le_of_length xs (remove x ys) rest (omega (arith, length-remove x ys here)) a,
      )

module _ {ℓ} {A : Type ℓ} where
  pub any_mono :
      (p q : A → Bool) (xs : List A)
      → ((a : A) → p a ≡ true → q a ≡ true)
      → any p xs ≡ true
      → any q xs ≡ true
  any_mono p q [] h k = k
  any_mono p q (x ∷ xs) h k = ground (arith, h x, any_mono p q xs h)

  pub any-not-all :
      (p q : A → Bool) (xs : List A)
      → all p xs ≡ false
      → any q xs ≡ false
      → any (λ x. not (p x) && not (q x)) xs ≡ true
  any-not-all p q [] h k = cc
  any-not-all p q (x ∷ xs) h k = ground (arith, any-not-all p q xs)

module _ {ℓ} {A : Type ℓ} ⦃e : Eq A⦄ where
  pub any_exists :
      (p : A → Bool) (xs : List A) → any p xs ≡ true → (x : A) × (elem x xs ≡ true) × (p x ≡ true)
  any_exists p [] h = absurd (ground arith)
  any_exists p (x ∷ xs) h = elim (Bool-cases (p x)) [
    | inl here ↦ (x, rw (eq_refl x), here)
    | inr other ↦ let (y, m, k) = any_exists p xs (ground arith) in (y, ground arith, k)
  ]
