-- ===== src/Parallel/Collect/Laws.antt =====
-- What parallel_execute returns or raises.
use docke_compose_customize.Prelude.{
  String, ◌≡◌, refl, sym, ◌∙◌, ap, Bool, true, false, Option, none, some, List, [], ◌∷◌, ◌++◌, ◌==◌,
  string_eq, if◌then◌else◌, ◌⊎◌, inl, inr, Option-cases,
}
use docke_compose_customize.Container.{get, put}
use docke_compose_customize.Container.Dict.{get-put}
use docke_compose_customize.Parallel.Collect.{
  Event, returned, refused, upstream, crashed, Collected, gives, reraises, collect, collect_all,
  conclude, parallel_execute,
}

-- `a` unless there is a later one
abbrev pub later : Option String → Option String → Option String
later a none = a
later a (some b) = some b

abbrev pub of_name : String → String → String → Option String
of_name key name text = if name == key then some text else none

later-later : (a b c : Option String) → later (later a b) c ≡ later a (later b c)
later-later a b none = refl
later-later a b (some c) = refl

later-crash :
    (a : Option String) (b : String) (c : Option String)
    → later (some b) c ≡ later a (later (some b) c)
later-crash a b none = refl
later-crash a b (some c) = refl

chosen :
    (old : Option String) (same : Bool) (text : String)
    → (if same then some text else old) ≡ later old (if same then some text else none)
chosen old true text = refl
chosen old false text = refl

put-later :
    (key name text : String) (d : List (String × String))
    → get key (put name text d) ≡ later (get key d) (of_name key name text)
put-later key name text d = get-put key name text d ∙ chosen (get key d) (name == key) text

later-none : (a : Option String) → later none a ≡ a
later-none none = refl
later-none (some a) = refl

module _ {R : Type 0} where
  -- what the functions have returned, in the order of the events
  abbrev pub results_of : List (Event R) → List R
  results_of [] = []
  results_of (returned name result ∷ events) = result ∷ results_of events
  results_of (refused name explanation ∷ events) = results_of events
  results_of (upstream name ∷ events) = results_of events
  results_of (crashed name exception ∷ events) = results_of events

  -- the last exception that the Docker client does not raise
  abbrev pub last_crash : List (Event R) → Option String
  last_crash [] = none
  last_crash (crashed name exception ∷ events) = later (some exception) (last_crash events)
  last_crash (returned name result ∷ events) = last_crash events
  last_crash (refused name explanation ∷ events) = last_crash events
  last_crash (upstream name ∷ events) = last_crash events

  -- the last error of an object
  abbrev pub last_error : String → List (Event R) → Option String
  last_error key [] = none
  last_error key (crashed name exception ∷ events) =
      later (of_name key name exception) (last_error key events)
  last_error key (refused name explanation ∷ events) =
      later (of_name key name explanation) (last_error key events)
  last_error key (returned name result ∷ events) = last_error key events
  last_error key (upstream name ∷ events) = last_error key events

  append_assoc : (a b c : List R) → (a ++ b) ++ c ≡ a ++ (b ++ c)
  append_assoc [] b c = refl
  append_assoc (x ∷ a) b c = ap (λ xs. x ∷ xs) (append_assoc a b c)

  append_nil : (a : List R) → a ++ [] ≡ a
  append_nil [] = refl
  append_nil (x ∷ a) = ap (λ xs. x ∷ xs) (append_nil a)

  collect_all-results :
      (events : List (Event R)) (c : Collected R)
      → (collect_all events c).results ≡ c.results ++ results_of events
  unfolding collect_all collect
  collect_all-results [] c = sym (append_nil c.results)
  collect_all-results (returned name result ∷ events) c =
      collect_all-results events (collect (returned name result) c)
      ∙ append_assoc c.results (result ∷ []) (results_of events)
  collect_all-results (refused name explanation ∷ events) c =
      collect_all-results events (collect (refused name explanation) c)
  collect_all-results (upstream name ∷ events) c = collect_all-results events c
  collect_all-results (crashed name exception ∷ events) c =
      collect_all-results events (collect (crashed name exception) c)

  collect_all-crash :
      (events : List (Event R)) (c : Collected R)
      → (collect_all events c).error_to_reraise ≡ later c.error_to_reraise (last_crash events)
  unfolding collect_all collect
  collect_all-crash [] c = refl
  collect_all-crash (returned name result ∷ events) c =
      collect_all-crash events (collect (returned name result) c)
  collect_all-crash (refused name explanation ∷ events) c =
      collect_all-crash events (collect (refused name explanation) c)
  collect_all-crash (upstream name ∷ events) c = collect_all-crash events c
  collect_all-crash (crashed name exception ∷ events) c =
      collect_all-crash events (collect (crashed name exception) c)
      ∙ later-crash c.error_to_reraise exception (last_crash events)

  collect_all-error :
      (key : String) (events : List (Event R)) (c : Collected R)
      → get key (collect_all events c).errors ≡ later (get key c.errors) (last_error key events)
  unfolding collect_all collect
  collect_all-error key [] c = refl
  collect_all-error key (returned name result ∷ events) c =
      collect_all-error key events (collect (returned name result) c)
  collect_all-error key (refused name explanation ∷ events) c =
      collect_all-error key events (collect (refused name explanation) c)
      ∙ (ap (λ e. later e (last_error key events)) (put-later key name explanation c.errors)
          ∙ later-later (get key c.errors) (of_name key name explanation) (last_error key events))
  collect_all-error key (upstream name ∷ events) c = collect_all-error key events c
  collect_all-error key (crashed name exception ∷ events) c =
      collect_all-error key events (collect (crashed name exception) c)
      ∙ (ap (λ e. later e (last_error key events)) (put-later key name exception c.errors)
          ∙ later-later (get key c.errors) (of_name key name exception) (last_error key events))

  parallel_execute-conclude :
      (events : List (Event R))
      → (errors : List (String × String)) × (parallel_execute events
          ≡ conclude (last_crash events) (results_of events) errors)
        × ((key : String) → get key errors ≡ last_error key events)
  unfolding parallel_execute
  parallel_execute-conclude events =
      let start : Collected R = record { results = []; errors = []; error_to_reraise = none } in
      (
        (collect_all events start).errors,
        rw (sym (collect_all-results events start)) (
            rw (sym (later-none (last_crash events)))
              (rw (sym (collect_all-crash events start)) refl)),
        λ key. collect_all-error key events start ∙ later-none (last_error key events),
      )

  -- Where an exception of another kind than those of the Docker client and of a dependency was
  -- raised, parallel_execute raises the last one. Without one it returns the results, in the order
  -- of the events, and for each object that failed on its own its last error, for the others none.
  pub parallel_execute_lem :
      (events : List (Event R))
      → ((exception : String) × (last_crash events ≡ some exception)
          × (parallel_execute events ≡ reraises exception))
        ⊎ ((last_crash events ≡ none)
            × ((errors : List (String × String)) × (parallel_execute events
                  ≡ gives (results_of events) errors)
                × ((key : String) → get key errors ≡ last_error key events)))
  parallel_execute_lem events =
      let (errors, same, last) = parallel_execute-conclude events in
      elim (Option-cases (last_crash events)) [
        | inl quiet ↦
            inr
              (quiet, (errors, same ∙ ap (λ c. conclude c (results_of events) errors) quiet, last))
        | inr (exception, crash) ↦
            inl (exception, crash, same ∙ ap (λ c. conclude c (results_of events) errors) crash)
      ]
