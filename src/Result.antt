-- ===== src/Result.antt =====
-- Exceptions as values. `Error` has a constructor for each `raise` of the modelled code, with the
-- values that go into its message; `diverged` is no exception, but a loop that ran out of fuel.
use docke_compose_customize.Prelude.{
  String, Option, List, [], ◌∷◌, ◌≡◌, ◌≢◌, refl, Bool, true, false, if◌then◌else◌,
}

-- the file and the name of a service, where `extends` comes back to it
pub record Signature : Type 0 where
  pub filename : Option String
  pub name : String

pub data Error : Type 0 where
  -- compose/config/sort_services.py: DependencyError
  self_link self_mount self_depends : String → Error
  circular_dependency : List String → Error
  -- compose/config/types.py
  volume_from_format unknown_volumes_from_type restart_format volume_format : String → Error
  -- `ValueError` of the built-in `int`, and of an unpacking
  value_error : String → Error
  -- compose/service.py, and the errors of the Docker client
  needs_build build_failed : String → Error
  -- compose/config/interpolation.py; the error of an operation on a value of another type
  invalid_interpolation type_error : String → Error
  invalid_option : String → String → String → String → Error
  -- compose/config/environment.py
  no_env_file not_a_file : String → Error
  -- compose/config/config.py
  circular_reference : List Signature → Error
  not_an_object version_not_text version_is_1 unsupported_version version_mismatch : String → Error
  external_with_attributes : String → Error
  compose_file_not_found not_list_or_mapping : Error
  cannot_extend no_extends_file : String → Error
  -- compose/config/validation.py: ConfigurationError
  combined_networks : Error
  undefined_network_service undefined_link undefined_dependency : String → String → Error
  invalid_ulimit : String → String → Error
  uppercase_name : String → Error
  -- compose/project.py
  no_such_service : String → Error
  invalid_link no_network_container invalid_volumes_from : String → String → Error
  -- `KeyError`
  key_error : String → Error
  -- an APIError with status 404 and "No such image", another APIError, a StreamOutputError
  no_such_image api_error stream_error : Error
  -- docker.errors.NotFound, and compose/volume.py: ConfigurationError
  not_found : Error
  external_not_found driver_differs nonexistent_driver : String → Error
  -- compose/network.py: ConfigurationError, of a service and a network
  undefined_network : String → String → Error
  driver_changed options_changed : String → Error
  diverged : Error

pub data Result {κ} (T : Type κ) : Type κ where
  ok : T → Result T
  err : Error → Result T

infixl 5 ◌>>=◌ ◌>>◌
abbrev pub ◌>>=◌ {κ μ} : {T : Type κ} {U : Type μ} → Result T → (T → Result U) → Result U
ok value >>= next = next value
err raised >>= next = err raised

abbrev pub ◌>>◌ {κ} : {U : Type κ} → Result (Unit {0}) → Result U → Result U
first >> rest = first >>= λ _. rest

-- `for x in xs: ...` over a state, left by an exception
abbrev pub for_each {ℓ κ} : {A : Type ℓ} {S : Type κ} → (A → S → Result S) → List A → S → Result S
for_each f [] s = ok s
for_each f (x ∷ xs) s = f x s >>= for_each f xs

-- `[f(x) for x in xs]`, left by an exception
abbrev pub traverse {ℓ κ} : {A : Type ℓ} {B : Type κ} → (A → Result B) → List A → Result (List B)
traverse f [] = ok []
traverse f (x ∷ xs) = f x >>= λ y. (traverse f xs >>= λ ys. ok (y ∷ ys))

-- A result that is a value with the property, or an exception that the program raises.
abbrev pub Outcome {ℓ} : {A : Type ℓ} → (A → Type 0) → Result A → Type 0
Outcome Q (ok a) = Q a
Outcome Q (err e) = e ≢ diverged

-- A result that is a value with the property.
abbrev pub Returns {ℓ} : {A : Type ℓ} → (A → Type 0) → Result A → Type 0
Returns Q (ok a) = Q a
Returns Q (err e) = ⊥

pub Outcome-map {ℓ} :
    {A : Type ℓ} (P Q : A → Type 0) (r : Result A)
    → ((a : A) → P a → Q a)
    → Outcome P r
    → Outcome Q r
Outcome-map P Q (ok a) f h = f a h
Outcome-map P Q (err e) f h = h

pub Outcome-bind {ℓ κ} :
    {T : Type ℓ} {U : Type κ} (P : T → Type 0) (Q : U → Type 0) (r : Result T) (next : T → Result U)
    → Outcome P r
    → ((x : T) → P x → Outcome Q (next x))
    → Outcome Q (r >>= next)
Outcome-bind P Q (ok a) f h k = k a h
Outcome-bind P Q (err e) f h k = h

pub Outcome-if {ℓ} :
    {A : Type ℓ} (Q : A → Type 0) (b : Bool) (r s : Result A)
    → Outcome Q r
    → Outcome Q s
    → Outcome Q (if b then r else s)
Outcome-if Q true r s h k = h
Outcome-if Q false r s h k = k

pub ok_injective {ℓ} : {A : Type ℓ} (a b : A) → ok a ≡ ok b → a ≡ b
ok_injective a b h = cc

-- What a chain of two steps tells of each.
pub bind-ok {ℓ κ} :
    {T : Type ℓ} {U : Type κ} (first : Result T) (next : T → Result U) (y : U)
    → (first >>= next) ≡ ok y
    → (x : T) × (first ≡ ok x) × (next x ≡ ok y)
bind-ok (ok x) next y h = (x, refl, h)
bind-ok (err e) next y h = cc

pub bind-err {ℓ κ} :
    {T : Type ℓ} {U : Type κ} (first : Result T) (next : T → Result U) (e : Error)
    → first ≢ err e
    → ((x : T) → next x ≢ err e)
    → (first >>= next) ≢ err e
bind-err (ok x) next e h k same = k x same
bind-err (err raised) next e h k same = h (cc)

pub Returns-bind {ℓ κ} :
    {A : Type ℓ} {B : Type κ} (P : A → Type 0) (Q : B → Type 0) (r : Result A) (f : A → Result B)
    → Returns P r
    → ((a : A) → P a → Returns Q (f a))
    → Returns Q (r >>= f)
Returns-bind P Q (ok a) f h k = k a h
Returns-bind P Q (err e) f h k = absurd h

pub Returns-map {ℓ} :
    {A : Type ℓ} (P Q : A → Type 0) (r : Result A)
    → ((a : A) → P a → Q a)
    → Returns P r
    → Returns Q r
Returns-map P Q (ok a) f h = f a h
Returns-map P Q (err e) f h = absurd h
