-- ===== src/Service/Convergence.antt =====
-- What each plan means for the containers.
use docke_compose_customize.Prelude.{
  String, ◌≡◌, ◌≢◌, ◌↔◌, ◌⊎◌, refl, ap, Bool, true, false, not, ◌&&◌, Option, none, some, List, [],
  ◌∷◌, arith, ◌==◌, string_eq, option_eq, filter, all, Bool-cases, inl, inr,
}
use docke_compose_customize.Container.{Container, get, label_config_hash}
use docke_compose_customize.Service.{
  ConvergenceStrategy, changed, always, never, recreate, noop, plan, any_diverged,
  containers_have_diverged, start_or_noop, convergence_plan,
}

-- The container runs and carries the hash of the present configuration.
abbrev pub is_current : String → Container → Bool
is_current hash c = c.is_running && get label_config_hash c.labels == some hash

any_diverged-true : (hash : Option String) (cs : List Container) → any_diverged hash true cs ≡ true
unfolding any_diverged
any_diverged-true hash [] = refl
any_diverged-true hash (c ∷ cs) = ground (arith, any_diverged-true hash cs)

-- The loop asks whether some hash differs.
any_diverged_iff :
    (hash : Option String) (cs : List Container)
    → any_diverged hash false cs ≡ not (all (λ c. get label_config_hash c.labels == hash) cs)
unfolding any_diverged
any_diverged_iff hash [] = refl
any_diverged_iff hash (c ∷ cs) = ground (arith, any_diverged-true hash cs, any_diverged_iff hash cs)

filter-nil :
    (p : Container → Bool) (cs : List Container) → all p cs ≡ true → filter (λ c. not (p c)) cs ≡ []
filter-nil p [] h = refl
filter-nil p (c ∷ cs) h = ground (arith, filter-nil p cs)

filter-all :
    (p : Container → Bool) (cs : List Container) → filter (λ c. not (p c)) cs ≡ [] → all p cs ≡ true
filter-all p [] h = refl
filter-all p (c ∷ cs) h = ground (arith, filter-all p cs)

start_or_noop_action :
    (containers stopped : List Container)
    → ((start_or_noop containers stopped).action ≡ noop) ↔ (stopped ≡ [])
unfolding start_or_noop
start_or_noop_action containers [] = (λ _. refl, λ _. refl)
start_or_noop_action containers (c ∷ cs) = (λ h. cc, λ h. cc)

all-and :
    (p q : Container → Bool) (cs : List Container)
    → all (λ c. p c && q c) cs ≡ (all p cs && all q cs)
all-and p q [] = refl
all-and p q (c ∷ cs) = ground (arith, all-and p q cs)

abbrev pub matches : Option String → Container → Bool
matches hash c = get label_config_hash c.labels == hash

diverged_iff :
    (hash : String) (cs : List Container)
    → containers_have_diverged (some hash) cs ≡ not (all (matches (some hash)) cs)
unfolding containers_have_diverged
diverged_iff hash cs = any_diverged_iff (some hash) cs

diverged_none : (cs : List Container) → containers_have_diverged none cs ≡ true
unfolding containers_have_diverged
diverged_none cs = refl

start_or_noop-ne-recreate :
    (containers stopped : List Container) → (start_or_noop containers stopped).action ≢ recreate
unfolding start_or_noop
start_or_noop-ne-recreate containers [] = λ h. cc
start_or_noop-ne-recreate containers (c ∷ cs) = λ h. cc

-- With strategy `changed`, nothing is done exactly when every container runs and carries the hash
-- of the present configuration.
pub noop_iff :
    (hash : String) (c : Container) (cs : List Container)
    → ((convergence_plan (some hash) (c ∷ cs) changed).action ≡ noop)
      ↔ (all (is_current hash) (c ∷ cs) ≡ true)
unfolding convergence_plan
noop_iff hash c cs =
    let containers = c ∷ cs in
    let stopped = filter (λ (d : Container). not d.is_running) containers in
    let parts = all-and (λ (d : Container). d.is_running) (matches (some hash)) containers in
    let action = start_or_noop_action containers stopped in
    let none_stopped = filter-nil (λ (d : Container). d.is_running) containers in
    let all_run = filter-all (λ (d : Container). d.is_running) containers in
    elim (Bool-cases (containers_have_diverged (some hash) containers)) [
      | inl diverged ↦
          rw diverged (λ h. cc, λ h. absurd (ground (arith, diverged_iff hash containers, parts)))
      | inr same ↦ rw same (
        λ h. ground (arith, all_run (action.0 h), diverged_iff hash containers, parts),
        λ h. action.1 (none_stopped (ground (arith, parts))),
      )
    ]

-- Every container is recreated exactly when the strategy is `always`, or when it is `changed` and
-- the image is missing or some container has another hash.
pub recreate_iff :
    (hash : Option String) (c : Container) (cs : List Container) (strategy : ConvergenceStrategy)
    → (convergence_plan hash (c ∷ cs) strategy ≡ plan recreate (c ∷ cs)) ↔ (
        (strategy ≡ always)
        ⊎ ((strategy ≡ changed) × ((hash ≡ none) ⊎ (all (matches hash) (c ∷ cs) ≡ false))))
unfolding convergence_plan
recreate_iff hash c cs always = (λ h. inl refl, λ h. refl)
recreate_iff hash c cs never = (λ h. cc, λ h. ground arith)
recreate_iff none c cs changed = (λ h. inr (refl, inl refl), λ h. rw (diverged_none (c ∷ cs)) refl)
recreate_iff (some hash) c cs changed =
    let containers = c ∷ cs in
    let stopped = filter (λ (d : Container). not d.is_running) containers in
    elim (Bool-cases (containers_have_diverged (some hash) containers)) [
      | inl diverged ↦
          rw diverged
            (λ h. inr (refl, inr (ground (arith, diverged_iff hash containers))), λ h. refl)
      | inr same ↦ rw same (
        λ h. absurd (start_or_noop-ne-recreate containers stopped (ap (λ p. p.action) h)),
        λ h. absurd (ground (arith, diverged_iff hash containers)),
      )
    ]
