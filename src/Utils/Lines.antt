-- ===== src/Utils/Lines.antt =====
-- Splitting a stream into lines does not depend on how its text is cut.
use Prim.Native.Nat.{◌%◌, ◌*◌, ◌≤◌}
use Prim.Native.Char.{code}
use docke_compose_customize.Prelude.{
  ℕ, zero, suc, String, ◌≡◌, refl, ap, sym, ◌∙◌, ◌+◌, ◌<◌, false, Option, none, some, List, [], ◌∷◌,
  ◌++◌, concat, concat_assoc, concat-nil, is_empty, has_char, size, size-concat, split_once, Joined,
  split_once-Joined, on_head, nat_beq, arith, if◌then◌else◌,
}
use docke_compose_customize.Result.{Result, ok, err, ◌>>=◌}
use docke_compose_customize.Utils.{
  with_separator, line_splitter, push, drain, add_items, Piece, bytes, text, stream_as_text,
  split_texts, split_buffer, microseconds_from_time_nano,
}

-- The lines of a text, each with its newline; the last may have none.
abbrev pub lines : String → List String
lines String.[] = []
lines (String.◌∷◌ c s) =
    let rest = lines s in if nat_beq (code c) b'\n' then String.◌∷◌ c "" ∷ rest else on_head c rest

abbrev pub concat_all : List String → String
concat_all [] = ""
concat_all (s ∷ ss) = concat s (concat_all ss)

lines-plain :
    (s : String) → has_char b'\n' s ≡ false → lines s ≡ (if is_empty s then [] else s ∷ [])
lines-plain String.[] h = refl
lines-plain (String.◌∷◌ c String.[]) h = ground arith
lines-plain (String.◌∷◌ c (String.◌∷◌ d s)) h = ground (arith, lines-plain (String.◌∷◌ d s))

lines-newline :
    (a b : String)
    → has_char b'\n' a ≡ false
    → lines (concat a (String.◌∷◌ "\n" b)) ≡ concat a "\n" ∷ lines b
lines-newline String.[] b h = refl
lines-newline (String.◌∷◌ c a) b h = ground (arith, lines-newline a b)

-- what the loop yields and keeps
abbrev Drained : String → Result (List String × String) → Type 0
Drained buffered (err e) = ⊥
Drained buffered (ok (items, left)) =
    (has_char b'\n' left ≡ false)
    × ((rest : String) → lines (concat buffered rest) ≡ items ++ lines (concat left rest))

Drained-push :
    (buffered a b : String) (r : Result (List String × String))
    → concat a (String.◌∷◌ "\n" b) ≡ buffered
    → has_char b'\n' a ≡ false
    → Drained b r
    → Drained buffered (r >>= λ r. ok (push line_splitter ok (concat a "\n") r))
Drained-push buffered a b (err e) joined plain h = h
Drained-push buffered a b (ok (items, left)) joined plain h = (
  h.0,
  λ rest.
      ap (λ s. lines (concat s rest)) (sym joined)
      ∙ ap lines (concat_assoc a (String.◌∷◌ "\n" b) rest)
      ∙ lines-newline a (concat b rest) plain
      ∙ ap (λ ls. concat a "\n" ∷ ls) (h.1 rest),
)

module _ (fuel : ℕ)
    (drained : (b : String) → size b < fuel → Drained b (drain line_splitter ok fuel b)) where
  Drained-step :
      (buffered : String) (found : Option (String × String))
      → size buffered < suc fuel
      → Joined "\n" buffered found
      → Drained buffered (elim (with_separator found) [
        | none ↦ ok ([], buffered)
        | some (item, rest) ↦
            drain line_splitter ok fuel rest >>= λ r. ok (push line_splitter ok item r)
      ])
  Drained-step buffered none h plain = (plain, λ rest. refl)
  Drained-step buffered (some (a, b)) h joined =
      let longer = size-concat a (String.◌∷◌ "\n" b) in
      let same = ap size joined.0 in
      Drained-push buffered a b (drain line_splitter ok fuel b) joined.0 joined.1
        (drained b (omega (arith, longer, same)))

drain-Drained :
    (fuel : ℕ) (buffered : String)
    → size buffered < fuel
    → Drained buffered (drain line_splitter ok fuel buffered)
unfolding drain line_splitter
drain-Drained zero buffered h = absurd (omega arith)
drain-Drained (suc fuel) buffered h =
    Drained-step fuel (drain-Drained fuel) buffered (split_once b'\n' buffered) h
      (split_once-Joined "\n" buffered)

add_items-lines :
    (buffered piece : String) (stream : List String) (r : Result (List String × String))
    → Drained (concat buffered piece) r
    → ((left : String)
        → has_char b'\n' left ≡ false
        → split_texts line_splitter ok left stream ≡ ok (lines (concat left (concat_all stream))))
    → (r >>= λ r. (split_texts line_splitter ok r.1 stream >>= add_items line_splitter ok r.0))
      ≡ ok (lines (concat buffered (concat piece (concat_all stream))))
add_items-lines buffered piece stream (err e) h k = absurd h
add_items-lines buffered piece stream (ok (items, left)) h k = rw (k left h.0) (
    ap ok
      (sym (h.1 (concat_all stream)) ∙ ap lines (concat_assoc buffered piece (concat_all stream))))

split_texts-plain :
    (buffered : String) (stream : List String)
    → has_char b'\n' buffered ≡ false
    → split_texts line_splitter ok buffered stream
      ≡ ok (lines (concat buffered (concat_all stream)))
unfolding split_texts
split_texts-plain buffered [] plain =
    ground (arith, concat-nil buffered, lines-plain buffered plain)
split_texts-plain buffered (piece ∷ stream) plain =
    add_items-lines buffered piece stream
      (drain line_splitter ok (suc (size (concat buffered piece))) (concat buffered piece))
      (drain-Drained (suc (size (concat buffered piece))) (concat buffered piece) (omega arith))
      (λ left. split_texts-plain left stream)

module _ {B : Type 0} (decode : B → String) where
  -- the whole text of a stream: bytes are decoded piece by piece
  abbrev pub text_of : List (Piece B) → String
  text_of [] = ""
  text_of (bytes b ∷ stream) = concat (decode b) (text_of stream)
  text_of (text t ∷ stream) = concat t (text_of stream)

  concat_all-stream_as_text :
      (stream : List (Piece B)) → concat_all (stream_as_text decode stream) ≡ text_of stream
  unfolding stream_as_text
  concat_all-stream_as_text [] = refl
  concat_all-stream_as_text (bytes b ∷ stream) =
      ap (concat (decode b)) (concat_all-stream_as_text stream)
  concat_all-stream_as_text (text t ∷ stream) = ap (concat t) (concat_all-stream_as_text stream)

  -- With the splitter at newlines and no decoder of its own, split_buffer yields the lines of the
  -- text that the pieces of the stream give one after the other, each piece of bytes decoded by
  -- itself.
  pub split_buffer-lines :
      (stream : List (Piece B))
      → split_buffer line_splitter ok decode stream ≡ ok (lines (text_of stream))
  unfolding split_buffer
  split_buffer-lines stream =
      split_texts-plain "" (stream_as_text decode stream) refl
      ∙ ap (λ s. ok (lines s)) (concat_all-stream_as_text stream)

-- The microseconds of an event's time are those that `datetime.replace` takes.
pub microseconds-lt :
    (time_nano : ℕ)
    → (microseconds_from_time_nano time_nano < 1_000_000)
      × (microseconds_from_time_nano time_nano * 1000 ≤ time_nano % 1_000_000_000)
      × (time_nano % 1_000_000_000 < microseconds_from_time_nano time_nano * 1000 + 1000)
unfolding microseconds_from_time_nano
microseconds-lt time_nano = omega arith
