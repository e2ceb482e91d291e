-- ===== src/Parallel/Writer.antt =====
-- compose/parallel.py: ParallelStreamWriter, which keeps a line for each object on the terminal.
-- What it writes is a list of texts and ANSI controls.
pub mod Terminal
pub mod Laws
pub mod Samples
use docke_compose_customize.Prelude.{
  ℕ, zero, suc, ◌-◌, String, Bool, true, false, Option, none, some, List, [], ◌∷◌, ◌++◌, map, ◌==◌,
  string_eq, concat, length, if◌then◌else◌,
}
use docke_compose_customize.Result.{Result, ok, err, value_error, ◌>>=◌}

pub data Control : Type 0 where
  text : String → Control
  new_line erase_line : Control
  up down : ℕ → Control

-- `'{} {} ... '.format(msg, obj_index)`
abbrev pub label : String → String → String
label msg name = concat msg (concat " " (concat name " ... "))

-- `lines.index(name)`
unfoldable pub index : List String → String → Result ℕ
index [] name = err (value_error name)
index (line ∷ lines) name =
    let rest = index lines name >>= λ i. ok (suc i) in if line == name then ok zero else rest

-- what is written, and the lines after it
unfoldable pub initialize : Option String → List String → String → List Control × List String
initialize none lines name = ([], lines)
initialize (some msg) lines name = (text (label msg name) ∷ new_line ∷ [], lines ++ name ∷ [])

abbrev pub moved : String → String → String → ℕ → List Control
moved msg name status diff =
    up diff ∷ erase_line ∷ text (concat (label msg name) status) ∷ down diff ∷ []

unfoldable pub write : Option String → List String → String → String → Result (List Control)
write none lines name status = ok []
write (some msg) lines name status =
    index lines name >>= λ position. ok (moved msg name status (length lines - position))

-- the calls of a writer
pub data Call : Type 0 where
  initialized : String → Call
  written : String → String → Call

unfoldable pub run : Option String → List String → List Call → Result (List Control)
run msg lines [] = ok []
run msg lines (initialized name ∷ calls) =
    let (out, lines') = initialize msg lines name in
    run msg lines' calls >>= λ rest. ok (out ++ rest)
run msg lines (written name status ∷ calls) = do
  out ← write msg lines name status
  rest ← run msg lines calls
  ok (out ++ rest)
