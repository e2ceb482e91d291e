-- ===== src/Parallel/Writer/Samples.antt =====
-- Two objects on the terminal.
use docke_compose_customize.Prelude.{◌≡◌, refl, some, List, [], ◌∷◌}
use docke_compose_customize.Result.{ok, Returns}
use docke_compose_customize.Parallel.Writer.{
  up, down, text, new_line, erase_line, Call, initialized, written, index, initialize, write, run,
}
use docke_compose_customize.Parallel.Writer.Terminal.{show}
use docke_compose_customize.Parallel.Writer.Laws.{screen, run-screen}

abbrev two_calls : List Call
two_calls = initialized "db" ∷ initialized "web" ∷ written "db" "done" ∷ []

controls :
    run (some "Creating") [] two_calls
    ≡ ok (
        text "Creating db ... "
        ∷ new_line
        ∷ text "Creating web ... "
        ∷ new_line
        ∷ up 2
        ∷ erase_line
        ∷ text "Creating db ... done"
        ∷ down 2
        ∷ [])
unfolding run initialize write index
controls = refl

run-screen_example :
    Returns
      (λ out.
        show out (screen "Creating" []) ≡ screen "Creating" (("db", "done") ∷ ("web", "") ∷ []))
      (run (some "Creating") [] two_calls)
run-screen_example = run-screen "Creating" two_calls [] refl
