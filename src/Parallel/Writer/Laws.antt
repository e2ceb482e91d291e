-- ===== src/Parallel/Writer/Laws.antt =====
-- What a terminal shows of ParallelStreamWriter: for each object a line with its last status.
use docke_compose_customize.Prelude.{
  ℕ, suc, ◌-◌, ◌≤◌, String, ◌≡◌, refl, sym, ◌∙◌, ap, subst, Bool, true, ◌&&◌, some, List, [], ◌∷◌,
  ◌++◌, map, ◌==◌, string_eq, concat, concat-nil, length, elem, arith, if◌then◌else◌, Bool-cases,
  inl, inr,
}
use docke_compose_customize.Result.{Result, ok, err, ◌>>=◌, Returns, Returns-bind}
use docke_compose_customize.Parallel.Writer.{
  Control, text, new_line, label, index, initialize, moved, write, Call, initialized, written, run,
}
use docke_compose_customize.Parallel.Writer.Terminal.{
  Terminal, at, show, show-append, onto, edit_onto,
}

-- what the lines say: an object and its last status
abbrev pub Board : Type 0
Board = List (String × String)

abbrev pub names : Board → List String
names board = map (λ (e : String × String). e.0) board

abbrev pub lines : String → Board → List String
lines msg board = map (λ (e : String × String). concat (label msg e.0) e.1) board

abbrev pub set_status : String → String → Board → Board
set_status name status [] = []
set_status name status ((n, s) ∷ board) =
    let rest = set_status name status board in
    if n == name then (n, status) ∷ board else (n, s) ∷ rest

abbrev pub after_call : Call → Board → Board
after_call (initialized name) board = board ++ (name, "") ∷ []
after_call (written name status) board = set_status name status board

abbrev pub after_calls : List Call → Board → Board
after_calls [] board = board
after_calls (c ∷ calls) board = after_calls calls (after_call c board)

-- each written line has been initialized
abbrev pub are_known : List String → List Call → Bool
are_known known [] = true
are_known known (initialized name ∷ calls) = are_known (known ++ name ∷ []) calls
are_known known (written name status ∷ calls) = elem name known && are_known known calls

abbrev pub screen : String → Board → Terminal
screen msg board = at (onto (lines msg board) []) "" []

length-lines : (msg : String) (board : Board) → length (lines msg board) ≡ length (names board)
length-lines msg [] = refl
length-lines msg (e ∷ board) = ap (λ n. suc n) (length-lines msg board)

-- the line of the position shows the new status
abbrev Written : String → String → String → Board → List String → ℕ → Type 0
Written msg name status board base position =
    (suc position ≤ length (names board))
    × (show (moved msg name status (length (names board) - position))
          (at (onto (lines msg board) base) "" [])
        ≡ at (onto (lines msg (set_status name status board)) base) "" [])

write-shows :
    (msg name status : String) (board : Board) (base : List String)
    → elem name (names board) ≡ true
    → Returns (Written msg name status board base) (index (names board) name)
unfolding index
write-shows msg name status [] base h = absurd (ground arith)
write-shows msg name status ((n, s) ∷ board) base h = elim (Bool-cases (n == name)) [
  | inl same ↦
      let named = (string_eq.beq_iff n name).0 same in
      rw same (
        omega arith,
        rw same (
            edit_onto (suc (length (names board)) - 0) (lines msg board) base
              (concat (label msg n) s) (concat (label msg name) status)
              (omega (arith, length-lines msg board))
            ∙ ap (λ k. at (onto (lines msg board) (concat (label msg k) status ∷ base)) "" [])
                (sym named)),
      )
  | inr other ↦ rw other (
      Returns-bind (Written msg name status board (concat (label msg n) s ∷ base)) _
        (index (names board) name) (λ i. ok (suc i))
        (write-shows msg name status board (concat (label msg n) s ∷ base)
          (ground (arith, h, other)))
        (λ position shown. (
          omega (arith, shown.0),
          rw other (
              subst
                (λ diff.
                  show (moved msg name status diff)
                    (at (onto (lines msg board) (concat (label msg n) s ∷ base)) "" [])
                  ≡ at
                      (onto (lines msg (set_status name status board))
                        (concat (label msg n) s ∷ base))
                      "" [])
                (fewer position shown.0) shown.1),
        )))
]
  where
    fewer :
        (position : ℕ)
        → suc position ≤ length (names board)
        → length (names board) - position ≡ suc (length (names board)) - suc position
    fewer position h = omega (arith, h)

onto-snoc : (xs b : List String) (x : String) → onto (xs ++ x ∷ []) b ≡ x ∷ onto xs b
onto-snoc [] b x = refl
onto-snoc (y ∷ xs) b x = onto-snoc xs (y ∷ b) x

names-snoc :
    (board : Board) (name : String) → names (board ++ (name, "") ∷ []) ≡ names board ++ name ∷ []
names-snoc [] name = refl
names-snoc (e ∷ board) name = ap (λ ns. e.0 ∷ ns) (names-snoc board name)

lines-snoc :
    (msg : String) (board : Board) (name : String)
    → lines msg (board ++ (name, "") ∷ []) ≡ lines msg board ++ label msg name ∷ []
lines-snoc msg [] name = ap (λ l. l ∷ []) (concat-nil (label msg name))
lines-snoc msg (e ∷ board) name =
    ap (λ ls. concat (label msg e.0) e.1 ∷ ls) (lines-snoc msg board name)

names-set_status :
    (name status : String) (board : Board) → names (set_status name status board) ≡ names board
names-set_status name status [] = refl
names-set_status name status ((n, s) ∷ board) = elim (Bool-cases (n == name)) [
  | inl same ↦ rw same refl
  | inr other ↦ rw other (ap (λ ns. n ∷ ns) (names-set_status name status board))
]

initialize-shows :
    (msg name : String) (board : Board)
    → show (text (label msg name) ∷ new_line ∷ []) (screen msg board)
      ≡ screen msg (board ++ (name, "") ∷ [])
initialize-shows msg name board =
    ap (λ a. at a "" [])
      (sym (onto-snoc (lines msg board) [] (label msg name))
        ∙ ap (λ ls. onto ls []) (sym (lines-snoc msg board name)))

chain :
    (out : List Control) (before between after : Terminal) (r : Result (List Control))
    → show out before ≡ between
    → Returns (λ rest. show rest between ≡ after) r
    → Returns (λ whole. show whole before ≡ after) (r >>= λ rest. ok (out ++ rest))
chain out before between after (ok rest) first h =
    show-append out rest before ∙ (ap (show rest) first ∙ h)
chain out before between after (err e) first h = absurd h

-- On a terminal on which every line of an object was initialized before a status is written to it,
-- the writer raises nothing, and what the terminal shows after all it has written is a line for each
-- initialized object, in that order, with the last status that was written for it, and the cursor on
-- an empty line below.
pub run-screen :
    (msg : String) (calls : List Call) (board : Board)
    → are_known (names board) calls ≡ true
    → Returns
        (λ out. show out (screen msg board) ≡ screen msg (after_calls calls board))
        (run (some msg) (names board) calls)
unfolding run initialize write
run-screen msg [] board h = refl
run-screen msg (initialized name ∷ calls) board h =
    let known = names-snoc board name in
    chain (text (label msg name) ∷ new_line ∷ []) (screen msg board)
      (screen msg (board ++ (name, "") ∷ [])) _ (run (some msg) (names board ++ name ∷ []) calls)
      (initialize-shows msg name board)
      (subst
        (λ ns.
          Returns
            (λ out.
              show out (screen msg (board ++ (name, "") ∷ []))
              ≡ screen msg (after_calls calls (board ++ (name, "") ∷ [])))
            (run (some msg) ns calls))
        known
        (run-screen msg calls (board ++ (name, "") ∷ [])
          (subst (λ ns. are_known ns calls ≡ true) (sym known) h)))
run-screen msg (written name status ∷ calls) board h =
    let known = names-set_status name status board in
    Returns-bind (λ out. show out (screen msg board) ≡ screen msg (set_status name status board)) _
      _ _
      (Returns-bind (Written msg name status board []) _ (index (names board) name)
        (λ position. ok (moved msg name status (length (names board) - position)))
        (write-shows msg name status board [] (ground (arith, h))) (λ position shown. shown.1))
      (λ out first.
        chain out (screen msg board) (screen msg (set_status name status board)) _
          (run (some msg) (names board) calls) first
          (subst
            (λ ns.
              Returns
                (λ rest.
                  show rest (screen msg (set_status name status board))
                  ≡ screen msg (after_calls calls (set_status name status board)))
                (run (some msg) ns calls))
            known
            (run-screen msg calls (set_status name status board)
              (subst (λ ns. are_known ns calls ≡ true) (sym known) (ground (arith, h))))))
