-- ===== src/Utils.antt =====
-- compose/utils.py: streams cut into pieces, and numbers of the Docker events.
-- A generator is the list of what it yields. `B` is the type of bytes and `decode` is
-- bytes.decode('utf-8', 'replace'), which gives a text for all bytes.
pub mod Lines
pub mod Samples
use Prim.Native.Nat.{◌/◌, ◌%◌}
use docke_compose_customize.Prelude.{
  ℕ, zero, suc, String, Bool, true, false, Option, none, some, List, [], ◌∷◌, ◌++◌, concat,
  is_empty, size, split_once, map, if◌then◌else◌,
}
use docke_compose_customize.Result.{Result, ok, err, diverged, ◌>>=◌}

-- an element of a stream
pub data Piece (B : Type 0) : Type 0 where
  bytes : B → Piece B
  text : String → Piece B

module _ {B : Type 0} (decode : B → String) where
  unfoldable pub stream_as_text : List (Piece B) → List String
  stream_as_text [] = []
  stream_as_text (bytes b ∷ stream) = decode b ∷ stream_as_text stream
  stream_as_text (text t ∷ stream) = t ∷ stream_as_text stream

abbrev pub with_separator : Option (String × String) → Option (String × String)
with_separator none = none
with_separator (some (a, b)) = some (concat a "\n", b)

-- with the separator that it has where none is given
unfoldable pub line_splitter : String → Option (String × String)
line_splitter buffer = with_separator (split_once b'\n' buffer)

module _ {A : Type 0} (splitter : String → Option (A × String)) (decoder : String → Result A) where
  abbrev pub push : A → List A × String → List A × String
  push item (items, buffered) = (item ∷ items, buffered)

  -- the `while` loop: what is yielded, and what stays in the buffer
  unfoldable pub drain : ℕ → String → Result (List A × String)
  drain zero buffered = err diverged
  drain (suc fuel) buffered = elim (splitter buffered) [
    | none ↦ ok ([], buffered)
    | some (item, rest) ↦ drain fuel rest >>= λ r. ok (push item r)
  ]

  abbrev pub add_items : List A → List A → Result (List A)
  add_items items rest = ok (items ++ rest)

  -- the `for` loop, with what `buffered` holds: each round of the inner loop takes at least a
  -- character off the buffer
  unfoldable pub split_texts : String → List String → Result (List A)
  split_texts buffered [] =
      if is_empty buffered then ok [] else (decoder buffered >>= λ item. ok (item ∷ []))
  split_texts buffered (data_item ∷ stream) =
      drain (suc (size (concat buffered data_item))) (concat buffered data_item) >>= λ r.
      (split_texts r.1 stream >>= add_items r.0)

  unfoldable pub split_buffer : {B : Type 0} → (B → String) → List (Piece B) → Result (List A)
  split_buffer decode stream = split_texts "" (stream_as_text decode stream)

-- `int(time_nano % 1000000000 / 1000)`
unfoldable pub microseconds_from_time_nano : ℕ → ℕ
microseconds_from_time_nano time_nano = time_nano % 1_000_000_000 / 1000

-- `str` is Python's
unfoldable pub build_string_dict {ℓ} :
    {V : Type ℓ} → (V → String) → List (String × V) → List (String × String)
build_string_dict str [] = []
build_string_dict str ((k, v) ∷ source_dict) = (k, str v) ∷ build_string_dict str source_dict
