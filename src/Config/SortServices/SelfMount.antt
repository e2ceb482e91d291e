-- ===== src/Config/SortServices/SelfMount.antt =====
-- The check for a service that mounts itself compares a name with VolumeFromSpec values.
use docke_compose_customize.Prelude.{
  ℕ, zero, suc, String, string_eq, ◌≡◌, ◌≢◌, false, List, [], ◌∷◌, arith, elem, any, length,
  Bool-cases, Option-cases, inl, inr,
}
use docke_compose_customize.Result.{Result, ok, err, self_mount, ◌>>=◌, for_each}
use docke_compose_customize.Config.Types.{VolumeFromSpec}
use docke_compose_customize.Config.SortServices.{
  ServiceDict, dict_eq, Marks, text_eq_spec, cycle_error, get_service_dependents, finish, get_last?,
  visit, visit_all, start_marks, sort_service_dicts,
}

abbrev Avoids {ℓ} : {A : Type ℓ} → String → Result A → Type ℓ
Avoids name r = r ≢ err (self_mount name)

no_spec_equals :
    (name : String) (specs : List VolumeFromSpec) → any (text_eq_spec name) specs ≡ false
no_spec_equals name [] = ground arith
no_spec_equals name (v ∷ specs) = ground (arith, no_spec_equals name specs)

Avoids-bind {ℓ κ} :
    {A : Type ℓ} {B : Type κ} (name : String) (r : Result A) (f : A → Result B)
    → Avoids name r
    → ((a : A) → Avoids name (f a))
    → Avoids name (r >>= f)
Avoids-bind name (ok a) f h k = k a
Avoids-bind name (err e) f h k = λ p. h (cc)

for_each-Avoids {ℓ} :
    {A S : Type ℓ} (name : String) (f : A → S → Result S)
    → ((a : A) (s : S) → Avoids name (f a s))
    → (xs : List A) (s : S) → Avoids name (for_each f xs s)
for_each-Avoids name f h [] s = λ p. cc
for_each-Avoids name f h (x ∷ xs) s =
    Avoids-bind name (f x s) (for_each f xs) (h x s) (for_each-Avoids name f h xs)

cycle_error-Avoids :
    (name : String) (n : ServiceDict) (l : List String) → Avoids name (cycle_error n l)
unfolding cycle_error
cycle_error-Avoids name n l = ground (arith, no_spec_equals n.name n.volumes_from)

visit-Avoids :
    (name : String) (fuel : ℕ) (services : List ServiceDict) (n : ServiceDict) (m : Marks)
    → Avoids name (visit fuel services n m)
unfolding visit
visit-Avoids name zero services n m = λ p. cc
visit-Avoids name (suc fuel) services n m = elim (Bool-cases (elem n.name m.temporary_marked)) [
  | inl seen ↦ rw seen (cycle_error-Avoids name n m.temporary_marked)
  | inr unseen ↦ elim (Bool-cases (elem n m.unmarked)) [
    | inl new ↦
        rw (unseen, new)
          (Avoids-bind name _ (λ after. ok (finish n after))
            (for_each-Avoids name (visit fuel services) (visit-Avoids name fuel services)
              (get_service_dependents n services) _)
            (λ a p. cc))
    | inr old ↦ rw (unseen, old) (λ p. cc)
  ]
]

visit_all-Avoids :
    (name : String) (rounds fuel : ℕ) (services : List ServiceDict) (m : Marks)
    → Avoids name (visit_all rounds fuel services m)
unfolding visit_all
visit_all-Avoids name zero fuel services m = elim (Option-cases (get_last? m.unmarked)) [
  | inl e ↦ rw (e, visit_all) (λ p. cc)
  | inr (n, e) ↦ rw (e, visit_all) (λ p. cc)
]
visit_all-Avoids name (suc rounds) fuel services m = elim (Option-cases (get_last? m.unmarked)) [
  | inl e ↦ rw (e, visit_all) (λ p. cc)
  | inr (n, e) ↦
      rw (e, visit_all)
        (Avoids-bind name _ _ (visit-Avoids name fuel services n m)
          (visit_all-Avoids name rounds fuel services))
]

-- Whatever the services, sorting never raises the error of a service that mounts itself.
pub sort-ne-self_mount :
    (services : List ServiceDict) (name : String)
    → sort_service_dicts services ≢ err (self_mount name)
unfolding sort_service_dicts
sort-ne-self_mount services name =
    visit_all-Avoids name (length services) (suc (length services)) services (start_marks services)
