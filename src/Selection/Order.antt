-- ===== src/Selection/Order.antt =====
-- The order of the input does not matter.
use ai_brain.Prelude.{
  suc, ◌≡◌, refl, sym, ap, ◌∙◌, ◌⊎◌, inl, inr, Bool, true, false, List, [], ◌∷◌, arith, leb,
  Bool-cases, length, filter,
}
use ai_brain.Paths.{Text, text_beq}
use ai_brain.Selection.{
  SelectionEnvelope, path_of_candidate, size_of, text_leq, insert_by_path, order_by_path, select,
}
use ai_brain.Selection.Policy.{ClassifiedCandidate, BatchClassPolicy, matches}

text_leq_trans : (s t u : Text) → text_leq s t ≡ true → text_leq t u ≡ true → text_leq s u ≡ true
unfolding text_leq
text_leq_trans [] t u h k = refl
text_leq_trans (a ∷ s) [] u h k = absurd (ground arith)
text_leq_trans (a ∷ s) (b ∷ t) [] h k = absurd (ground arith)
text_leq_trans (a ∷ s) (b ∷ t) (c ∷ u) h k = ground (arith, text_leq_trans s t u)

text_leq_antisym : (s t : Text) → text_leq s t ≡ true → text_leq t s ≡ true → text_beq s t ≡ true
unfolding text_leq
text_leq_antisym [] [] h k = refl
text_leq_antisym [] (b ∷ t) h k = absurd (ground arith)
text_leq_antisym (a ∷ s) [] h k = absurd (ground arith)
text_leq_antisym (a ∷ s) (b ∷ t) h k = ground (arith, text_leq_antisym s t)

text_leq_total : (s t : Text) → text_leq s t ≡ false → text_leq t s ≡ true
unfolding text_leq
text_leq_total [] t h = absurd (ground arith)
text_leq_total (a ∷ s) [] h = refl
text_leq_total (a ∷ s) (b ∷ t) h = ground (arith, text_leq_total s t)

abbrev leq : ClassifiedCandidate → ClassifiedCandidate → Bool
leq c d = text_leq (path_of_candidate c) (path_of_candidate d)

-- Exactly one of two candidates with different paths comes first.
one_first :
    (c d : ClassifiedCandidate)
    → text_beq (path_of_candidate c) (path_of_candidate d) ≡ false
    → ((leq c d ≡ true) × (leq d c ≡ false)) ⊎ ((leq c d ≡ false) × (leq d c ≡ true))
one_first c d h = elim (Bool-cases (leq c d)) [
  | inl q ↦ elim (Bool-cases (leq d c)) [
    | inl r ↦
        absurd (ground (arith, text_leq_antisym (path_of_candidate c) (path_of_candidate d) q r))
    | inr r ↦ inl (q, r)
  ]
  | inr q ↦ inr (q, text_leq_total (path_of_candidate c) (path_of_candidate d) q)
]

insert_swap :
    (c d : ClassifiedCandidate) (xs : List ClassifiedCandidate)
    → (leq c d ≡ true) × (leq d c ≡ false)
    → insert_by_path c (insert_by_path d xs) ≡ insert_by_path d (insert_by_path c xs)
unfolding insert_by_path
insert_swap c d [] (q, r) = rw (q, r) refl
insert_swap c d (x ∷ xs) (q, r) = elim (Bool-cases (leq d x)) [
  | inl k ↦
      let j =
        text_leq_trans (path_of_candidate c) (path_of_candidate d) (path_of_candidate x) q k in
      rw (k, j, q, r, k) refl
  | inr k ↦ elim (Bool-cases (leq c x)) [
    | inl j ↦ rw (k, j, r, k) refl
    | inr j ↦ rw (k, j, k) (ap (λ ys. x ∷ ys) (insert_swap c d xs (q, r)))
  ]
]

insert_commutes :
    (c d : ClassifiedCandidate) (xs : List ClassifiedCandidate)
    → text_beq (path_of_candidate c) (path_of_candidate d) ≡ false
    → insert_by_path c (insert_by_path d xs) ≡ insert_by_path d (insert_by_path c xs)
insert_commutes c d xs h = elim (one_first c d h) [
  | inl q ↦ insert_swap c d xs q
  | inr (q, r) ↦ sym (insert_swap d c xs (r, q))
]

-- Another order of the same candidates, in which those with the same path keep theirs.
pub data Reordered : List ClassifiedCandidate → List ClassifiedCandidate → Type 0 where
  same : (cs : List ClassifiedCandidate) → Reordered cs cs
  swap :
      (c d : ClassifiedCandidate) (cs : List ClassifiedCandidate)
      → text_beq (path_of_candidate c) (path_of_candidate d) ≡ false
      → Reordered (c ∷ d ∷ cs) (d ∷ c ∷ cs)
  under :
      (c : ClassifiedCandidate) {cs ds : List ClassifiedCandidate}
      → Reordered cs ds
      → Reordered (c ∷ cs) (c ∷ ds)
  again :
      {cs ds es : List ClassifiedCandidate} → Reordered cs ds → Reordered ds es → Reordered cs es

order-Reordered :
    {cs ds : List ClassifiedCandidate} → Reordered cs ds → order_by_path cs ≡ order_by_path ds
unfolding order_by_path
order-Reordered (same cs) = refl
order-Reordered (swap c d cs h) = insert_commutes c d (order_by_path cs) h
order-Reordered (under c r) = ap (insert_by_path c) (order-Reordered r)
order-Reordered (again r s) = order-Reordered r ∙ order-Reordered s

filter-Reordered :
    (p : ClassifiedCandidate → Bool) {cs ds : List ClassifiedCandidate}
    → Reordered cs ds
    → Reordered (filter p cs) (filter p ds)
filter-Reordered p (same cs) = same _
filter-Reordered p (swap c d cs h) = elim (Bool-cases (p c)) [
  | inl q ↦ elim (Bool-cases (p d)) [
    | inl r ↦ rw (q, r) (swap c d _ h)
    | inr r ↦ rw (q, r) (same _)
  ]
  | inr q ↦ rw q (same _)
]
filter-Reordered p (under c r) = elim (Bool-cases (p c)) [
  | inl q ↦ rw q (under c (filter-Reordered p r))
  | inr q ↦ rw q (filter-Reordered p r)
]
filter-Reordered p (again r s) = again (filter-Reordered p r) (filter-Reordered p s)

length-Reordered : {cs ds : List ClassifiedCandidate} → Reordered cs ds → length cs ≡ length ds
length-Reordered (same cs) = refl
length-Reordered (swap c d cs h) = refl
length-Reordered (under c r) = ap suc (length-Reordered r)
length-Reordered (again r s) = length-Reordered r ∙ length-Reordered s

-- A selection does not depend on the order in which the candidates come, as long as those with the
-- same path keep theirs: all its counts, its candidates and its bytes are the same.
pub select-Reordered :
    (policy : BatchClassPolicy) (e : SelectionEnvelope) {cs ds : List ClassifiedCandidate}
    → Reordered cs ds
    → select cs policy e ≡ select ds policy e
unfolding select
select-Reordered policy e {cs} {ds} r =
    let f = filter-Reordered (matches policy) r in
    let fits = filter-Reordered (λ c. leb (size_of c) e.max_source_bytes) f in
    rw (length-Reordered r, length-Reordered f, length-Reordered fits, order-Reordered f) refl
