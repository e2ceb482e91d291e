-- ===== src/Parallel/Writer/Terminal.antt =====
-- A terminal that obeys the texts and controls of ParallelStreamWriter.
use docke_compose_customize.Prelude.{
  ℕ, zero, suc, String, ◌≡◌, refl, sym, ◌∙◌, ap, subst, List, [], ◌∷◌, ◌++◌, string_eq, concat,
  length,
}
use docke_compose_customize.Parallel.Writer.{Control, text, new_line, erase_line, up, down}

-- A terminal: the lines above the cursor, the nearest first, its own line, and those below. A text
-- goes to the end of the line.
pub data Terminal : Type 0 where
  at : List String → String → List String → Terminal

abbrev pub move_up : Terminal → Terminal
move_up (at [] c d) = at [] c d
move_up (at (x ∷ a) c d) = at a x (c ∷ d)

abbrev pub move_down : Terminal → Terminal
move_down (at a c []) = at a c []
move_down (at a c (x ∷ d)) = at (c ∷ a) x d

abbrev pub ups : ℕ → Terminal → Terminal
ups zero t = t
ups (suc n) t = ups n (move_up t)

abbrev pub downs : ℕ → Terminal → Terminal
downs zero t = t
downs (suc n) t = move_down (downs n t)

abbrev pub put_line : String → Terminal → Terminal
put_line s (at a c d) = at a s d

abbrev pub add_text : String → Terminal → Terminal
add_text s (at a c d) = at a (concat c s) d

abbrev pub to_next_line : Terminal → Terminal
to_next_line (at a c []) = at (c ∷ a) "" []
to_next_line (at a c (x ∷ d)) = at (c ∷ a) x d

abbrev pub obey : Control → Terminal → Terminal
obey (text s) t = add_text s t
obey new_line t = to_next_line t
obey erase_line t = put_line "" t
obey (up n) t = ups n t
obey (down n) t = downs n t

abbrev pub show : List Control → Terminal → Terminal
show [] t = t
show (c ∷ controls) t = show controls (obey c t)

pub show-append : (xs ys : List Control) (t : Terminal) → show (xs ++ ys) t ≡ show ys (show xs t)
show-append [] ys t = refl
show-append (x ∷ xs) ys t = show-append xs ys (obey x t)

-- Up over lines, a line changed there, and down again.
edit :
    (a : List String) (x s : String) (b : List String) (c : String) (d : List String)
    → downs (suc (length a)) (add_text s (put_line "" (ups (suc (length a)) (at (a ++ x ∷ b) c d))))
      ≡ at (a ++ s ∷ b) c d
edit [] x s b c d = refl
edit (y ∷ a) x s b c d = ap move_down (edit a x s b y (c ∷ d))

abbrev pub onto : List String → List String → List String
onto [] b = b
onto (x ∷ xs) b = onto xs (x ∷ b)

-- the lines of a list, which stand above the cursor
rotate : List String → List String
rotate [] = []
rotate (x ∷ xs) = rotate xs ++ x ∷ []

append_assoc : (a b c : List String) → (a ++ b) ++ c ≡ a ++ (b ++ c)
append_assoc [] b c = refl
append_assoc (x ∷ a) b c = ap (λ xs. x ∷ xs) (append_assoc a b c)

onto-rotate : (xs b : List String) → onto xs b ≡ rotate xs ++ b
unfolding rotate
onto-rotate [] b = refl
onto-rotate (x ∷ xs) b = onto-rotate xs (x ∷ b) ∙ sym (append_assoc (rotate xs) (x ∷ []) b)

length-rotate : (xs : List String) → length (rotate xs) ≡ length xs
unfolding rotate
length-rotate [] = refl
length-rotate (x ∷ xs) = length-snoc (rotate xs) x ∙ ap (λ n. suc n) (length-rotate xs)
  where
    length-snoc : (xs : List String) (x : String) → length (xs ++ x ∷ []) ≡ suc (length xs)
    length-snoc [] x = refl
    length-snoc (y ∷ xs) x = ap (λ n. suc n) (length-snoc xs x)

pub edit_onto :
    (diff : ℕ) (rows base : List String) (x s : String)
    → diff ≡ suc (length rows)
    → show (up diff ∷ erase_line ∷ text s ∷ down diff ∷ []) (at (onto rows (x ∷ base)) "" [])
      ≡ at (onto rows (s ∷ base)) "" []
edit_onto diff rows base x s same =
    subst
      (λ n.
        show (up n ∷ erase_line ∷ text s ∷ down n ∷ []) (at (onto rows (x ∷ base)) "" [])
        ≡ at (onto rows (s ∷ base)) "" [])
      (ap (λ n. suc n) (length-rotate rows) ∙ sym same)
      (ap
          (λ a.
            downs (suc (length (rotate rows)))
              (add_text s (put_line "" (ups (suc (length (rotate rows))) (at a "" [])))))
          (onto-rotate rows (x ∷ base))
        ∙ (edit (rotate rows) x s base "" []
            ∙ ap (λ a. at a "" []) (sym (onto-rotate rows (s ∷ base)))))
