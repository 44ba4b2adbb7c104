-- ===== src/Chunking/Coverage.antt =====
-- The chunks cover the text, overlap as asked, and are bounded.
use mathlib.Core.Path.{subst}
use ai_brain.Prelude.{
  ℕ, zero, suc, ◌+◌, ◌-◌, ◌≤◌, ◌<◌, ◌≡◌, refl, sym, ◌∙◌, ap, inl, inr, Bool, true, false, List, [],
  ◌∷◌, ◌++◌, arith, ◌==◌, ==_refl, ltb, leb, Bool-cases, length, take, drop, All, append_nil,
}
use ai_brain.Paths.{Text}
use ai_brain.Chunking.{chunked, strip, chunks_from, chunk_stripped, chunk_text, min}
use ai_brain.Chunking.Slices.{
  take_all, length-take, length-drop, drop-drop, take-drop, drop-append, drop-take, take-take,
  length-take_at_least,
}

-- The chunks after the first, without what they share with the one before.
abbrev pub fresh_parts : ℕ → List Text → Text
fresh_parts overlap [] = []
fresh_parts overlap (c ∷ cs) = drop overlap c ++ fresh_parts overlap cs

-- The text that overlapping chunks come from.
abbrev pub joined : ℕ → List Text → Text
joined overlap [] = []
joined overlap (c ∷ cs) = c ++ fresh_parts overlap cs

-- Each chunk begins with the last characters of the one before, which has the full size.
abbrev pub Overlapping : ℕ → ℕ → List Text → Type 0
Overlapping chunk_size overlap [] = Unit
Overlapping chunk_size overlap (c ∷ []) = Unit
Overlapping chunk_size overlap (c ∷ d ∷ cs) =
    (length c ≡ chunk_size)
    × (drop (chunk_size - overlap) c ≡ take overlap d)
    × Overlapping chunk_size overlap (d ∷ cs)

-- What the chunks of a text are.
pub record Covers (chunk_size overlap : ℕ) (text : Text) (chunks : List Text) : Type 0 where
  pub joins : joined overlap chunks ≡ text
  pub bounded : All (λ c. (0 < length c) × (length c ≤ chunk_size)) chunks
  pub overlapping : Overlapping chunk_size overlap chunks

-- The chunks from a place on, of which the first is known.
record From (chunk_size overlap : ℕ) (u : Text) (chunks : List Text) : Type 0 where
  later : List Text
  shape : chunks ≡ take chunk_size u ∷ later
  covers : Covers chunk_size overlap u (take chunk_size u ∷ later)

module _ (chunk_size overlap : ℕ) (fits : overlap < chunk_size) (text : Text) where
  abbrev stride : ℕ
  stride = chunk_size - overlap

  last_chunk :
      (u : Text)
      → 0 < length u
      → length u ≤ chunk_size
      → Covers chunk_size overlap u (take chunk_size u ∷ [])
  last_chunk u some_left small =
      let q = take_all chunk_size u small in
      rw q (record { joins = append_nil u; bounded = ((some_left, small), tt); overlapping = tt })

  -- What the stride leaves of a chunk is what the next one begins with.
  shared :
      (u : Text) → drop stride (take chunk_size u) ≡ take overlap (take chunk_size (drop stride u))
  shared u =
      let q : stride + overlap ≡ chunk_size = omega (arith, fits) in
      ap (λ n. drop stride (take n u)) (sym q)
      ∙ drop-take stride overlap u
      ∙ sym (take-take overlap chunk_size (drop stride u) (omega (arith, fits)))

  next_joins :
      (u : Text) (later : List Text)
      → chunk_size < length u
      → joined overlap (take chunk_size (drop stride u) ∷ later) ≡ drop stride u
      → joined overlap (take chunk_size u ∷ take chunk_size (drop stride u) ∷ later) ≡ u
  next_joins u later big h =
      let v = drop stride u in
      let q : stride + overlap ≡ chunk_size = omega (arith, fits) in
      let left : overlap ≤ length v = omega (arith, fits, big, length-drop stride u) in
      let room = length-take_at_least overlap chunk_size v (omega (arith, fits)) left in
      ap (λ t. take chunk_size u ++ t)
        (sym (drop-append overlap (take chunk_size v) (fresh_parts overlap later) room)
          ∙ ap (drop overlap) h
          ∙ drop-drop overlap stride u
          ∙ ap (λ n. drop n u) q)
      ∙ take-drop chunk_size u

  next_chunk :
      (u : Text) (later : List Text)
      → chunk_size < length u
      → Covers chunk_size overlap (drop stride u) (take chunk_size (drop stride u) ∷ later)
      → Covers chunk_size overlap u (take chunk_size u ∷ take chunk_size (drop stride u) ∷ later)
  next_chunk u later big c =
      let full : length (take chunk_size u) ≡ chunk_size =
        length-take chunk_size u (omega (arith, big)) in
      record {
        joins = next_joins u later big c.joins;
        bounded = ((omega (arith, full, fits), omega (arith, full)), c.bounded);
        overlapping = (full, shared u, c.overlapping);
      }

  -- With fuel for every round, the loop gives the chunks of the rest of the text.
  chunks_from-From :
      (fuel start : ℕ)
      → start < length text
      → length text ≤ start + fuel
      → From chunk_size overlap (drop start text) (chunks_from chunk_size stride text fuel start)
  unfolding chunks_from
  chunks_from-From zero start h k = absurd (omega (arith, h, k))
  chunks_from-From (suc fuel) start h k =
      let u = drop start text in
      let n = length text in
      let left : length u ≡ n - start = length-drop start text in
      let inside : ltb start n ≡ true = ground (arith, h) in
      elim (Bool-cases (leb n (start + chunk_size))) [
        | inl e ↦
            let small : n ≤ start + chunk_size = ground (arith, e) in
            let end : min (start + chunk_size) n ≡ n = ground (arith, small) in
            let at_end : (n == n) ≡ true = ==_refl n in
            let whole : take (n - start) u ≡ take chunk_size u =
              take_all (n - start) u (omega (arith, left))
              ∙ sym (take_all chunk_size u (omega (arith, left, small))) in
            rw (inside, end, at_end)
              (record {
                later = [];
                shape = ap (λ t. t ∷ []) whole;
                covers = last_chunk u (omega (arith, left, h)) (omega (arith, left, small));
              })
        | inr e ↦
            let big : start + chunk_size < n = ground (arith, e) in
            let end : min (start + chunk_size) n ≡ start + chunk_size = ground (arith, big) in
            let goes_on : (start + chunk_size == n) ≡ false = ground (arith, big) in
            let size : start + chunk_size - start ≡ chunk_size = omega arith in
            let rest =
              chunks_from-From fuel (start + stride) (omega (arith, fits, big))
                (omega (arith, fits, k)) in
            let same : drop (start + stride) text ≡ drop stride u =
              sym (drop-drop stride start text) in
            rw (inside, end, goes_on, size)
              (extend fuel start u same (omega (arith, left, big)) rest)
      ]
    where
      extend :
          (fuel start : ℕ) (u : Text)
          → drop (start + stride) text ≡ drop stride u
          → chunk_size < length u
          → From chunk_size overlap
              (drop (start + stride) text)
              (chunks_from chunk_size stride text fuel (start + stride))
          → From chunk_size overlap u
              (take chunk_size u ∷ chunks_from chunk_size stride text fuel (start + stride))
      extend fuel start u same big f =
          let c =
            subst (λ v. Covers chunk_size overlap v (take chunk_size v ∷ f.later)) same f.covers in
          record {
            later = take chunk_size (drop stride u) ∷ f.later;
            shape =
                ap (λ t. take chunk_size u ∷ t)
                  (f.shape ∙ ap (λ v. take chunk_size v ∷ f.later) same);
            covers = next_chunk u f.later big c;
          }

chunk_stripped-Covers :
    (chunk_size overlap : ℕ) (text : Text)
    → overlap < chunk_size
    → Covers chunk_size overlap text (chunk_stripped chunk_size overlap text)
unfolding chunk_stripped
chunk_stripped-Covers chunk_size overlap [] h = record {
  joins = refl;
  bounded = tt;
  overlapping = tt;
}
chunk_stripped-Covers chunk_size overlap (c ∷ s) h =
    let f =
      chunks_from-From chunk_size overlap h (c ∷ s) (length (c ∷ s)) 0 (omega arith)
        (omega arith) in
    subst (Covers chunk_size overlap (c ∷ s)) (sym f.shape) f.covers

-- With an overlap below the size, a text is cut into chunks: none is empty or above the size; each
-- but the first begins with the last `overlap` characters of the one before, which has the full
-- size; and without these the chunks make up the stripped text.
pub chunk_text-Covers :
    (is_space : ℕ → Bool) (text : Text) (chunk_size overlap : ℕ)
    → overlap < chunk_size
    → (chunks : List Text) × (chunk_text is_space text chunk_size overlap ≡ chunked chunks)
      × Covers chunk_size overlap (strip is_space text) chunks
unfolding chunk_text
chunk_text-Covers is_space text chunk_size overlap h =
    let positive : (chunk_size == 0) ≡ false = ground (arith, h) in
    let smaller : leb chunk_size overlap ≡ false = ground (arith, h) in
    (
      chunk_stripped chunk_size overlap (strip is_space text),
      rw (positive, smaller) refl,
      chunk_stripped-Covers chunk_size overlap (strip is_space text) h,
    )
