-- ===== src/Utils/Samples.antt =====
-- Streams to evaluate the model on.
use Prim.Native.Nat.{◌%◌}
use docke_compose_customize.Prelude.{
  String, ◌≡◌, refl, ◌<◌, ◌*◌, ◌+◌, ◌≤◌, List, [], ◌∷◌, split_once, ℕ, concat, ◌==◌, nat_eq,
  if◌then◌else◌,
}
use docke_compose_customize.Result.{ok}
use docke_compose_customize.Utils.{
  Piece, bytes, text, stream_as_text, split_texts, line_splitter, drain, split_buffer,
  microseconds_from_time_nano,
}
use docke_compose_customize.Utils.Lines.{lines, split_buffer-lines, microseconds-lt}

-- bytes as their numbers, of which those that are no newline are decoded to a mark
abbrev decode : List ℕ → String
decode [] = ""
decode (n ∷ ns) = concat (if n == 10 then "\n" else "?") (decode ns)

abbrev pieces : List (Piece (List ℕ))
pieces = text "ab" ∷ bytes (226 ∷ 128 ∷ []) ∷ bytes (162 ∷ 10 ∷ []) ∷ text "\ne" ∷ []

pieces_split : split_buffer line_splitter ok decode pieces ≡ ok ("ab???\n" ∷ "\n" ∷ "e" ∷ [])
unfolding split_buffer stream_as_text split_texts drain line_splitter split_once
pieces_split = refl

split_buffer-lines_example : split_buffer line_splitter ok decode pieces ≡ ok (lines "ab???\n\ne")
split_buffer-lines_example = split_buffer-lines decode pieces

microseconds-lt_example :
    (microseconds_from_time_nano 1_999_999_999 < 1_000_000)
    × (microseconds_from_time_nano 1_999_999_999 * 1000 ≤ 1_999_999_999 % 1_000_000_000)
    × (1_999_999_999 % 1_000_000_000 < microseconds_from_time_nano 1_999_999_999 * 1000 + 1000)
microseconds-lt_example = microseconds-lt 1_999_999_999
