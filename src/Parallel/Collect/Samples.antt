-- ===== src/Parallel/Collect/Samples.antt =====
-- The events of three objects, of which one crashed.
use docke_compose_customize.Prelude.{ℕ, String, ◌≡◌, refl, none, some, ◌⊎◌, List, [], ◌∷◌}
use docke_compose_customize.Container.{get}
use docke_compose_customize.Parallel.Collect.{
  Event, returned, refused, crashed, reraises, collect, collect_all, gives, parallel_execute,
}
use docke_compose_customize.Parallel.Collect.Laws.{
  results_of, last_crash, last_error, parallel_execute_lem,
}

abbrev three : List (Event ℕ)
three = returned "db" 1 ∷ crashed "web" "KeyError" ∷ refused "cache" "no space" ∷ []

three_reraise : parallel_execute three ≡ reraises "KeyError"
unfolding parallel_execute collect_all collect
three_reraise = refl

parallel_execute_lem_example :
    ((exception : String) × (last_crash three ≡ some exception)
      × (parallel_execute three ≡ reraises exception))
    ⊎ ((last_crash three ≡ none)
        × ((errors : List (String × String)) × (parallel_execute three
              ≡ gives (results_of three) errors)
            × ((key : String) → get key errors ≡ last_error key three)))
parallel_execute_lem_example = parallel_execute_lem three
