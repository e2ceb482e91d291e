-- ===== src/Config/SortServices/Errors.antt =====
-- compose/config/errors.py: DependencyError, the exception of a sorting that fails.
use docke_compose_customize.Prelude.{◌≡◌, Bool, true, false}
use docke_compose_customize.Result.{
  Error, self_link, self_mount, self_depends, circular_dependency, Result, ok, err, ◌>>=◌,
}

-- the exceptions that are raised as a DependencyError
abbrev pub is_dependency_error : Error → Bool
is_dependency_error (self_link name) = true
is_dependency_error (self_mount name) = true
is_dependency_error (self_depends name) = true
is_dependency_error (circular_dependency names) = true
is_dependency_error _ = false

-- A value with the property, or a DependencyError.
abbrev pub Sorts {ℓ} : {A : Type ℓ} → (A → Type 0) → Result A → Type 0
Sorts Q (ok a) = Q a
Sorts Q (err e) = is_dependency_error e ≡ true

pub Sorts-map {ℓ} :
    {A : Type ℓ} (P Q : A → Type 0) (r : Result A) → ((a : A) → P a → Q a) → Sorts P r → Sorts Q r
Sorts-map P Q (ok a) f h = f a h
Sorts-map P Q (err e) f h = h

pub Sorts-bind {ℓ κ} :
    {T : Type ℓ} {U : Type κ} (P : T → Type 0) (Q : U → Type 0) (r : Result T) (next : T → Result U)
    → Sorts P r
    → ((x : T) → P x → Sorts Q (next x))
    → Sorts Q (r >>= next)
Sorts-bind P Q (ok a) f h k = k a h
Sorts-bind P Q (err e) f h k = h
