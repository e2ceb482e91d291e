-- ===== src/Config/SortServices.antt =====
-- compose/config/sort_services.py: the order of services by their dependencies.
-- A service dictionary is a record of the keys that are read here, a missing list key being the
-- empty list. `visit` recurs on fuel, since the graph may have cycles; `sort_service_dicts` gives it
-- one more than there are services, for each visit below another has marked another service.
pub mod Errors
pub mod Measure
pub mod Visit
pub mod Order
pub mod Acyclic
pub mod SelfMount
pub mod Samples
use docke_compose_customize.Prelude.{
  ℕ, zero, suc, String, ◌≡◌, ◌↔◌, Bool, true, false, ◌&&◌, ◌||◌, Option, none, some, List, [], ◌∷◌,
  map, arith, Eq, ◌==◌, string_eq, list_eq, list_beq_iff, option_eq, option_beq_iff, elem, remove,
  filter, any, length, if◌then◌else◌, is_empty, starts_with, split, split_once, concat,
}
use docke_compose_customize.Result.{
  Result, ok, err, self_link, self_mount, self_depends, circular_dependency, diverged, ◌>>=◌,
  for_each,
}
use docke_compose_customize.Config.Types.{VolumeFromSpec}

abbrev source_of : String → Option (String × String) → Option String
source_of network_mode none = none
source_of network_mode (some (_, net_name)) = some net_name

unfoldable pub get_source_name_from_network_mode : Option String → String → Option String
get_source_name_from_network_mode none source_type = none
get_source_name_from_network_mode (some network_mode) source_type =
    if is_empty network_mode
    then none
    else if starts_with network_mode (concat source_type ":")
    then source_of network_mode (split_once b':' network_mode)
    else none

unfoldable pub get_service_name_from_network_mode : Option String → Option String
unfolding get_source_name_from_network_mode
get_service_name_from_network_mode network_mode =
    get_source_name_from_network_mode network_mode "service"

unfoldable pub get_container_name_from_network_mode : Option String → Option String
unfolding get_source_name_from_network_mode
get_container_name_from_network_mode network_mode =
    get_source_name_from_network_mode network_mode "container"

-- `link.split(':')[0]`
abbrev pub first_part : List String → String
first_part [] = ""
first_part (part ∷ _) = part

unfoldable pub get_service_names : List String → List String
get_service_names links = map (λ link. first_part (split b':' link)) links

unfoldable pub get_service_names_from_volumes_from : List VolumeFromSpec → List String
get_service_names_from_volumes_from volumes_from = map (λ v. v.source) volumes_from

pub record ServiceDict : Type 0 where
  pub name : String
  pub links : List String
  pub volumes_from : List VolumeFromSpec
  pub network_mode : Option String
  pub depends_on : List String

abbrev spec_beq : VolumeFromSpec → VolumeFromSpec → Bool
spec_beq a b = a.source == b.source && a.mode == b.mode && a.type == b.type

spec_beq_iff : (a b : VolumeFromSpec) → (spec_beq a b ≡ true) ↔ (a ≡ b)
spec_beq_iff a b = ground (
  arith,
  string_eq.beq_iff a.source b.source,
  string_eq.beq_iff a.mode b.mode,
  string_eq.beq_iff a.type b.type,
)

instance pub spec_eq : Eq VolumeFromSpec
spec_eq = record { beq = spec_beq; beq_iff = spec_beq_iff }

-- `==` of two dictionaries
abbrev dict_beq : ServiceDict → ServiceDict → Bool
dict_beq a b =
    a.name == b.name
    && a.links == b.links
    && a.volumes_from == b.volumes_from
    && a.network_mode == b.network_mode
    && a.depends_on == b.depends_on

dict_beq_iff : (a b : ServiceDict) → (dict_beq a b ≡ true) ↔ (a ≡ b)
dict_beq_iff a b = ground (
  arith,
  string_eq.beq_iff a.name b.name,
  list_beq_iff a.links b.links,
  list_beq_iff a.volumes_from b.volumes_from,
  option_beq_iff a.network_mode b.network_mode,
  list_beq_iff a.depends_on b.depends_on,
)

instance pub dict_eq : Eq ServiceDict
dict_eq = record { beq = dict_beq; beq_iff = dict_beq_iff }

-- the condition of the comprehension in `get_service_dependents`
unfoldable pub depends_on_name : String → ServiceDict → Bool
depends_on_name name service =
    elem name (get_service_names service.links)
    || elem name (get_service_names_from_volumes_from service.volumes_from)
    || some name == get_service_name_from_network_mode service.network_mode
    || elem name service.depends_on

unfoldable pub get_service_dependents : ServiceDict → List ServiceDict → List ServiceDict
get_service_dependents service_dict services = filter (depends_on_name service_dict.name) services

-- the variables of `sort_service_dicts`
pub record Marks : Type 0 where
  pub unmarked : List ServiceDict
  pub temporary_marked : List String
  pub sorted_services : List ServiceDict

-- Python's `==` of a text and a named tuple
abbrev text_eq_spec : String → VolumeFromSpec → Bool
text_eq_spec name spec = false

-- the first branch of `visit`: which error is raised
cycle_error : ServiceDict → List String → Result Marks
cycle_error n temporary =
    if elem n.name (get_service_names n.links)
    then err (self_link n.name)
    else if any (text_eq_spec n.name) n.volumes_from
    then err (self_mount n.name)
    else if elem n.name n.depends_on
    then err (self_depends n.name)
    else err (circular_dependency temporary)

-- the last lines of `visit`
abbrev finish : ServiceDict → Marks → Marks
finish n m = record {
  unmarked = remove n m.unmarked;
  temporary_marked = remove n.name m.temporary_marked;
  sorted_services = n ∷ m.sorted_services;
}

pub visit : ℕ → List ServiceDict → ServiceDict → Marks → Result Marks
visit zero services n m = err diverged
visit (suc fuel) services n m =
    let below =
      for_each (visit fuel services) (get_service_dependents n services)
        (record m { temporary_marked = n.name ∷ m.temporary_marked }) in
    if elem n.name m.temporary_marked
    then cycle_error n m.temporary_marked
    else if elem n m.unmarked
    then below >>= (λ after. ok (finish n after))
    else ok m

-- `unmarked[-1]`
abbrev get_last? : List ServiceDict → Option ServiceDict
get_last? [] = none
get_last? (x ∷ []) = some x
get_last? (x ∷ y ∷ rest) = get_last? (y ∷ rest)

-- `while unmarked: visit(unmarked[-1])`
pub visit_all : ℕ → ℕ → List ServiceDict → Marks → Result (List ServiceDict)
visit_all zero fuel services m = elim (get_last? m.unmarked) [
  | none ↦ ok m.sorted_services
  | some n ↦ err diverged
]
visit_all (suc rounds) fuel services m = elim (get_last? m.unmarked) [
  | none ↦ ok m.sorted_services
  | some n ↦ visit fuel services n m >>= visit_all rounds fuel services
]

abbrev start_marks : List ServiceDict → Marks
start_marks services = record { unmarked = services; temporary_marked = []; sorted_services = [] }

pub sort_service_dicts : List ServiceDict → Result (List ServiceDict)
sort_service_dicts services =
    visit_all (length services) (suc (length services)) services (start_marks services)
