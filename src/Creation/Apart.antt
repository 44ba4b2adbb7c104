-- ===== src/Creation/Apart.antt =====
-- One archive of each group of duplicates is left.
use ai_brain.Prelude.{
  ℕ, ◌≤◌, ◌≡◌, refl, sym, Bool, true, false, not, ◌&&◌, ◌||◌, Option, none, some, List, [], ◌∷◌,
  ◌++◌, append_assoc, any, any-append, All, filter, sum_by, if◌then◌else◌, Bool-cases, Option-cases,
  inl, inr, arith,
}
use mathlib.Core.Path.{subst}
use ai_brain.Paths.{Text, text_beq, text_beq_iff}
use ai_brain.Selection.{order_by_path}
use ai_brain.Selection.Policy.{ClassifiedCandidate}
use ai_brain.Creation.{Creation, Catalogue, eligible_candidates}
use ai_brain.Creation.Deferral.{is_archive_category, deferrals, select_archive_duplicate_deferrals}
use ai_brain.Creation.Copies.{sum-order}

abbrev group_is : Text → Option Text → Bool
group_is g none = false
group_is g (some h) = text_beq g h

-- Whether an archive is of the group, and not deferred.
abbrev left : Text → List Text → ClassifiedCandidate → ℕ
left g deferred c =
    if not (any (text_beq c.observation.root_t7_path) deferred)
    then if group_is g c.observation.d1_duplicate_group_id then 1 else 0
    else 0

text_beq_sym : (s t : Text) → text_beq s t ≡ text_beq t s
text_beq_sym s t = elim (Bool-cases (text_beq s t)) [
  | inl e ↦ let q = (text_beq_iff s t).0 e in subst (λ u. text_beq s u ≡ text_beq u s) q refl
  | inr e ↦ elim (Bool-cases (text_beq t s)) [
    | inr d ↦ rw (e, d) refl
    | inl d ↦ let q = (text_beq_iff t s).0 d in subst (λ u. text_beq u t ≡ text_beq t u) q refl
  ]
]

left_le : (g : Text) (deferred : List Text) (c : ClassifiedCandidate) → left g deferred c ≤ 1
left_le g deferred c = ground arith

-- With all of the walk's deferrals left out, at most one of a group is left, and none of a group that
-- has its representative already.
walk_leaves :
    (g : Text) (deferred chosen : List Text) (cs : List ClassifiedCandidate)
    → All (λ p. any (text_beq p) deferred ≡ true) (deferrals chosen cs)
    → sum_by (left g deferred) cs ≤ (if any (text_beq g) chosen then 0 else 1)
unfolding deferrals
walk_leaves g deferred chosen [] h = ground arith
walk_leaves g deferred chosen (c ∷ cs) h = elim (Option-cases c.observation.d1_duplicate_group_id) [
  | inl o ↦ let q = rw o at h in ground (arith, o, walk_leaves g deferred chosen cs q)
  | inr (g', o) ↦ elim (Bool-cases (any (text_beq g') chosen)) [
    | inl e ↦
        let q = rw (o, e) at h in
        let rest = walk_leaves g deferred chosen cs q.1 in ground (arith, q.0, rest)
    | inr e ↦
        let q = rw (o, e) at h in
        let rest = walk_leaves g deferred (g' ∷ chosen) cs q in
        elim (Bool-cases (text_beq g g')) [
          | inr m ↦
              let other : left g deferred c ≡ 0 = ground (arith, o, m) in
              let same = rw m at rest in omega (arith, other, same)
          | inl m ↦
              let none_yet : any (text_beq g) chosen ≡ false =
                subst (λ t. any (text_beq t) chosen ≡ false) (sym ((text_beq_iff g g').0 m)) e in
              let none_later = rw m at rest in
              rw none_yet (omega (arith, left_le g deferred c, none_later))
        ]
  ]
]

text_beq_refl : (s : Text) → text_beq s s ≡ true
text_beq_refl s = (text_beq_iff s s).1 refl

or_true : (b : Bool) → (b || true) ≡ true
or_true true = refl
or_true false = refl

-- Each text of a list is in the list.
listed : (before texts : List Text) → All (λ p. any (text_beq p) (before ++ texts) ≡ true) texts
listed before [] = tt
listed before (t ∷ texts) = (
  rw (any-append (text_beq t) before (t ∷ texts), text_beq_refl t) (or_true _),
  subst (λ ts. All (λ p. any (text_beq p) ts ≡ true) texts) (append_assoc before (t ∷ []) texts)
      (listed (before ++ t ∷ []) texts),
)

sum_by-filter_eq :
    (w : ClassifiedCandidate → ℕ) (p : ClassifiedCandidate → Bool) (xs : List ClassifiedCandidate)
    → sum_by w (filter p xs) ≡ sum_by (λ x. if p x then w x else 0) xs
sum_by-filter_eq w p [] = refl
sum_by-filter_eq w p (x ∷ xs) = ground (arith, sum_by-filter_eq w p xs)

sum_by-same :
    (w v : ClassifiedCandidate → ℕ) (xs : List ClassifiedCandidate)
    → ((x : ClassifiedCandidate) → w x ≡ v x)
    → sum_by w xs ≡ sum_by v xs
sum_by-same w v [] h = refl
sum_by-same w v (x ∷ xs) h = omega (arith, h x, sum_by-same w v xs h)

-- Whether a candidate is an archive of the group.
abbrev pub archive_of : Text → ClassifiedCandidate → ℕ
archive_of g c =
    if is_archive_category c.source_category && group_is g c.observation.d1_duplicate_group_id
    then 1
    else 0

deferred_apart :
    (g : Text) (cs : List ClassifiedCandidate)
    → sum_by (archive_of g) (
        filter
          (λ x.
            not (any (text_beq x.observation.root_t7_path) (select_archive_duplicate_deferrals cs)))
          cs)
      ≤ 1
unfolding select_archive_duplicate_deferrals
deferred_apart g cs =
    let deferred = select_archive_duplicate_deferrals cs in
    let archives = filter (λ c. is_archive_category c.source_category) cs in
    let walked : sum_by (left g deferred) (order_by_path archives) ≤ 1 =
      walk_leaves g deferred [] (order_by_path archives) (listed [] deferred) in
    let unordered = sum-order (left g deferred) archives in
    let split =
      sum_by-filter_eq (left g deferred) (λ c. is_archive_category c.source_category) cs in
    let kept =
      sum_by-filter_eq (archive_of g)
        (λ x. not (any (text_beq x.observation.root_t7_path) deferred)) cs in
    let same =
      sum_by-same
        (λ x.
          if not (any (text_beq x.observation.root_t7_path) deferred) then archive_of g x else 0)
        (λ x. if is_archive_category x.source_category then left g deferred x else 0) cs
        (λ x. ground arith) in
    omega (arith, walked, unordered, split, kept, same)

-- Of the archives that have the same content, at most one is among the candidates of a batch.
pub eligible_candidates-Apart :
    (r : Creation) (c : Catalogue) (g : Text) → sum_by (archive_of g) (eligible_candidates r c) ≤ 1
unfolding eligible_candidates
eligible_candidates-Apart r c g = deferred_apart g _
