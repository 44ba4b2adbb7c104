-- ===== src/Creation/Copies.antt =====
-- How often a place is listed, for the candidates of a creation and its selection.
use ai_brain.Prelude.{
  ℕ, ◌+◌, ◌≤◌, ◌≡◌, refl, sym, ap, ◌∙◌, true, false, not, none, some, List, [], ◌∷◌, map, filter,
  any, All-kept, All-mono, sum_by, sum_by-append, sum_by-filter, sum_by-zero, sum_by-map,
  if◌then◌else◌, Bool-cases, inl, inr, arith,
}
use mathlib.Core.Path.{subst}
use ai_brain.Paths.{text_beq_iff}
use ai_brain.Claims.Rows.{instance_keyed}
use ai_brain.Selection.{SelectionEnvelope, insert_by_path, order_by_path, select}
use ai_brain.Selection.Walk.{select-Takes}
use ai_brain.Selection.Policy.{CandidateObservation, ClassifiedCandidate, BatchClassPolicy, matches}
use ai_brain.Creation.{run_keyed, Place, place_eq, place_of}

-- How often a place stands in a list.
abbrev pub weight : Place → Place → ℕ
weight k p = if place_eq k p then 1 else 0

abbrev pub copies : Place → List Place → ℕ
copies k = sum_by (weight k)

pub place_eq-eq : (p q : Place) → place_eq p q ≡ true → p ≡ q
place_eq-eq (p, none) (q, none) h = ap (λ t. (t, none)) ((text_beq_iff p q).0 (ground (arith, h)))
place_eq-eq (p, none) (q, some n) h = absurd (ground (arith, h))
place_eq-eq (p, some m) (q, none) h = absurd (ground (arith, h))
place_eq-eq (p, some m) (q, some n) h =
    let a = (text_beq_iff p q).0 (ground (arith, h)) in
    let b = (text_beq_iff m n).0 (ground (arith, h)) in
    ap (λ t. (t, some m)) a ∙ ap (λ t. (q, some t)) b

-- The weight of a candidate.
abbrev pub heft : Place → ClassifiedCandidate → ℕ
heft k x = weight k (place_of x.observation)

sum-insert :
    (w : ClassifiedCandidate → ℕ) (c : ClassifiedCandidate) (xs : List ClassifiedCandidate)
    → sum_by w (insert_by_path c xs) ≡ w c + sum_by w xs
unfolding insert_by_path
sum-insert w c [] = refl
sum-insert w c (x ∷ xs) = ground (arith, sum-insert w c xs)

pub sum-order :
    (w : ClassifiedCandidate → ℕ) (xs : List ClassifiedCandidate)
    → sum_by w (order_by_path xs) ≡ sum_by w xs
unfolding order_by_path
sum-order w [] = refl
sum-order w (x ∷ xs) = sum-insert w x (order_by_path xs) ∙ omega (arith, sum-order w xs)

-- A selection takes no place more often than its candidates have it.
pub sum-select :
    (w : ClassifiedCandidate → ℕ) (xs : List ClassifiedCandidate) (policy : BatchClassPolicy)
    (e : SelectionEnvelope)
    → sum_by w (select xs policy e).selected ≤ sum_by w xs
sum-select w xs policy e =
    let t = select-Takes xs policy e in
    let front = ap (sum_by w) t.front ∙ sum_by-append w (select xs policy e).selected t.left in
    omega
      (arith, sum-order w (filter (matches policy) xs), sum_by-filter w (matches policy) xs, front)

pub not_listed : (k : Place) (ps : List Place) → any (place_eq k) ps ≡ false → copies k ps ≡ 0
not_listed k [] h = refl
not_listed k (p ∷ ps) h = ground (arith, not_listed k ps)

pub kept_weight :
    (k : Place) (already : List Place) (o : CandidateObservation)
    → any (place_eq k) already ≡ true
    → not (any (place_eq (place_of o)) already) ≡ true
    → weight k (place_of o) ≡ 0
kept_weight k already o e h = elim (Bool-cases (place_eq k (place_of o))) [
  | inl m ↦
      let q =
        subst (λ p. not (any (place_eq p) already) ≡ true) (sym (place_eq-eq k (place_of o) m)) h in
      absurd (ground (arith, e, q))
  | inr m ↦ rw m refl
]

-- What is listed already is not among the eligible candidates.
pub eligible_fresh :
    (k : Place) (already : List Place) (os : List CandidateObservation)
    → copies k already ≤ 1
    → copies k (map place_of os) ≤ 1
    → copies k already
        + sum_by
            (λ o. weight k (place_of o))
            (filter (λ o. not (any (place_eq (place_of o)) already)) os)
      ≤ 1
eligible_fresh k already os h q =
    let all_of = sum_by-map (weight k) place_of os in
    let fewer =
      sum_by-filter (λ o. weight k (place_of o)) (λ o. not (any (place_eq (place_of o)) already))
        os in
    elim (Bool-cases (any (place_eq k) already)) [
      | inr e ↦ omega (arith, not_listed k already e, all_of, fewer, q)
      | inl e ↦ omega (
        arith,
        h,
        sum_by-zero (λ o. weight k (place_of o))
            (filter (λ o. not (any (place_eq (place_of o)) already)) os)
            (All-mono _ _ (filter (λ o. not (any (place_eq (place_of o)) already)) os)
              (λ o kept. kept_weight k already o e kept)
              (All-kept (λ o. not (any (place_eq (place_of o)) already)) os)),
      )
    ]
