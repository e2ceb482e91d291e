-- ===== src/Parallel/Collect.antt =====
-- compose/parallel.py: what parallel_execute makes of the events. An event has the name of its
-- object; an exception is its text.
pub mod Laws
pub mod Samples
use docke_compose_customize.Prelude.{String, Option, none, some, List, [], ◌∷◌, ◌++◌}
use docke_compose_customize.Container.{put}

pub data Event (R : Type 0) : Type 0 where
  returned : String → R → Event R
  -- an APIError with its explanation, an UpstreamError, another exception
  refused : String → String → Event R
  upstream : String → Event R
  crashed : String → String → Event R

-- the variables of the loop
pub record Collected (R : Type 0) : Type 0 where
  pub results : List R
  pub errors : List (String × String)
  pub error_to_reraise : Option String

pub data Executed (R : Type 0) : Type 0 where
  gives : List R → List (String × String) → Executed R
  reraises : String → Executed R

module _ {R : Type 0} where
  -- the body of the loop
  unfoldable pub collect : Event R → Collected R → Collected R
  collect (returned name result) c = record c { results = c.results ++ result ∷ [] }
  collect (refused name explanation) c = record c { errors = put name explanation c.errors }
  collect (upstream name) c = c
  collect (crashed name exception) c = record c {
    errors = put name exception c.errors;
    error_to_reraise = some exception;
  }

  unfoldable pub collect_all : List (Event R) → Collected R → Collected R
  collect_all [] c = c
  collect_all (e ∷ events) c = collect_all events (collect e c)

  abbrev pub conclude : Option String → List R → List (String × String) → Executed R
  conclude none results errors = gives results errors
  conclude (some exception) results errors = reraises exception

  unfoldable pub parallel_execute : List (Event R) → Executed R
  parallel_execute events =
      let c = collect_all events (record { results = []; errors = []; error_to_reraise = none }) in
      conclude c.error_to_reraise c.results c.errors
