-- ===== src/Project/Services.antt =====
-- compose/project.py: get_services, with the services that these depend on.
-- The services of a project have different names, so a service is known by its name.
use docke_compose_customize.Prelude.{
  ℕ, zero, suc, String, Bool, true, false, List, [], ◌∷◌, ◌++◌, string_eq, filter, elem,
  if◌then◌else◌,
}
use docke_compose_customize.Result.{Result, ok, err, diverged, traverse, ◌>>=◌}
use docke_compose_customize.Project.{Service, service_names, get_service}

abbrev pub is_nil {ℓ} : {A : Type ℓ} → List A → Bool
is_nil [] = true
is_nil (x ∷ xs) = false

-- `[uniques.append(s) for s in services if s not in uniques]`
unfoldable pub append_unique : List Service → List Service → List Service
append_unique uniques [] = uniques
append_unique uniques (s ∷ services) =
    append_unique (if elem s.name (service_names uniques) then uniques else uniques ++ s ∷ [])
      services

-- `rec` is `get_services` with dependencies; the order of `set(dep_names)` plays no part in it
abbrev pub inject_deps :
    (List String → Result (List Service)) → List Service → Service → Result (List Service)
inject_deps rec acc s =
    if is_nil s.dependency_names
    then ok (acc ++ s ∷ [])
    else (rec s.dependency_names >>= λ dep_services. ok (acc ++ (dep_services ++ s ∷ [])))

-- `reduce(self._inject_deps, services, [])`
unfoldable pub inject_all :
    (List String → Result (List Service)) → List Service → List Service → Result (List Service)
inject_all rec acc [] = ok acc
inject_all rec acc (s ∷ services) = inject_deps rec acc s >>= λ acc'. inject_all rec acc' services

abbrev pub selected : List Service → List Service → List Service
selected services unsorted = filter (λ (s : Service). elem s.name (service_names unsorted)) services

-- all services where no names are given
abbrev pub wanted : List Service → List String → List String
wanted services names = if is_nil names then service_names services else names

abbrev pub unique_services : List Service → Result (List Service)
unique_services services = ok (append_unique [] services)

unfoldable pub get_services : ℕ → List Service → List String → Bool → Result (List Service)
get_services zero services names include_deps = err diverged
get_services (suc fuel) services names include_deps = do
  unsorted ← traverse (get_service services) (wanted services names)
  found ←
      (if include_deps
        then inject_all (λ deps. get_services fuel services deps true) []
            (selected services unsorted)
        else ok (selected services unsorted))
  unique_services found
