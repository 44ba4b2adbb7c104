-- ===== src/Chunking/Examples.antt =====
-- A short text in chunks of four with one shared character.
use ai_brain.Prelude.{ℕ, ◌≡◌, refl, Bool, List, [], ◌∷◌, ◌==◌, arith}
use ai_brain.Paths.{Text, codes}
use ai_brain.Chunking.{
  chunked, chunk_text, chunk_stripped, chunks_from, strip, strip_start, strip_end,
}
use ai_brain.Chunking.Coverage.{Covers, chunk_text-Covers}

abbrev is_blank : ℕ → Bool
is_blank c = c == 32

chunks_test :
    chunk_text is_blank (codes " abcdefgh ") 4 1
    ≡ chunked (codes "abcd" ∷ codes "defg" ∷ codes "gh" ∷ [])
unfolding chunk_text chunks_from strip strip_start strip_end chunk_stripped
chunks_test = refl

chunk_text-Covers_example :
    (chunks : List Text) × (chunk_text is_blank (codes " abcdefgh ") 4 1 ≡ chunked chunks)
    × Covers 4 1 (strip is_blank (codes " abcdefgh ")) chunks
chunk_text-Covers_example = chunk_text-Covers is_blank (codes " abcdefgh ") 4 1 (omega arith)
