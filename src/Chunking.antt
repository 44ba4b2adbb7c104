-- ===== src/Chunking.antt =====
-- The chunks of a text that are embedded: backend/app/embeddings/chunker.py. A text is the list of its
-- code points; which of them are white space, which `str.strip` knows, is an argument.
mod Slices
pub mod Coverage
mod Examples
use ai_brain.Prelude.{
  ℕ, zero, suc, ◌+◌, ◌-◌, Bool, true, false, List, [], ◌∷◌, if◌then◌else◌, ◌==◌, ltb, leb, length,
  take, drop,
}
use ai_brain.Paths.{Text}

abbrev pub default_chunk_size : ℕ
default_chunk_size = 1000

abbrev pub default_chunk_overlap : ℕ
default_chunk_overlap = 200

-- The list of chunks, or the `ValueError` of one of the two checks.
pub data Chunked : Type 0 where
  chunk_size_not_positive : Chunked
  overlap_out_of_range : Chunked
  chunked : List Text → Chunked

-- `text.strip()`
unfoldable pub strip_start : (ℕ → Bool) → Text → Text
strip_start is_space [] = []
strip_start is_space (c ∷ s) =
    let rest = strip_start is_space s in if is_space c then rest else c ∷ s

unfoldable pub strip_end : (ℕ → Bool) → Text → Text
strip_end is_space [] = []
strip_end is_space (c ∷ s) = elim (strip_end is_space s) [
  | [] ↦ if is_space c then [] else c ∷ []
  | d ∷ t ↦ c ∷ d ∷ t
]

unfoldable pub strip : (ℕ → Bool) → Text → Text
unfolding strip_start strip_end
strip is_space text = strip_end is_space (strip_start is_space text)

abbrev pub min : ℕ → ℕ → ℕ
min a b = if leb a b then a else b

-- `text[start:end]`
abbrev pub slice : ℕ → ℕ → Text → Text
slice start end text = take (end - start) (drop start text)

-- The loop, from a start; the fuel bounds its rounds, and the length of the text is enough.
unfoldable pub chunks_from : ℕ → ℕ → Text → ℕ → ℕ → List Text
chunks_from chunk_size stride text zero start = []
chunks_from chunk_size stride text (suc fuel) start =
    let rest = chunks_from chunk_size stride text fuel (start + stride) in
    let end = min (start + chunk_size) (length text) in
    if ltb start (length text)
    then if end == length text then slice start end text ∷ [] else slice start end text ∷ rest
    else []

unfoldable pub chunk_stripped : ℕ → ℕ → Text → List Text
unfolding chunks_from
chunk_stripped chunk_size overlap [] = []
chunk_stripped chunk_size overlap (c ∷ s) =
    chunks_from chunk_size (chunk_size - overlap) (c ∷ s) (length (c ∷ s)) 0

-- A size and an overlap below zero are outside the model.
unfoldable pub chunk_text : (ℕ → Bool) → Text → ℕ → ℕ → Chunked
unfolding strip chunk_stripped
chunk_text is_space text chunk_size overlap =
    if chunk_size == 0
    then chunk_size_not_positive
    else if leb chunk_size overlap
    then overlap_out_of_range
    else chunked (chunk_stripped chunk_size overlap (strip is_space text))
