-- ===== src/Selection/Walk.antt =====
-- Stop, never skip: what the walk selects.
use ai_brain.Prelude.{
  ℕ, ◌+◌, ◌≤◌, ◌<◌, ◌≡◌, refl, ap, ◌⊎◌, inl, inr, List, [], ◌∷◌, ◌++◌, arith, ltb, Bool-cases,
  length, filter, sum_by,
}
use ai_brain.Selection.{SelectionEnvelope, size_of, walk, order_by_path, select}
use ai_brain.Selection.Policy.{ClassifiedCandidate, BatchClassPolicy, matches}

-- The next candidate, if there is one, is over a limit.
abbrev pub IsFull : SelectionEnvelope → ℕ → ℕ → List ClassifiedCandidate → Type 0
IsFull e count bytes [] = Unit
IsFull e count bytes (c ∷ cs) =
    (e.max_source_instances < count + 1) ⊎ (e.max_source_bytes < bytes + size_of c)

-- What was taken from the front of a list, after `count` candidates with `bytes`.
pub record Takes (e : SelectionEnvelope) (count bytes : ℕ) (cs : List ClassifiedCandidate)
    (out : List ClassifiedCandidate × ℕ) : Type 0 where
  pub left : List ClassifiedCandidate
  pub front : cs ≡ out.0 ++ left
  pub few : count ≤ e.max_source_instances → count + length out.0 ≤ e.max_source_instances
  pub sum : out.1 ≡ bytes + sum_by size_of out.0
  pub small : bytes ≤ e.max_source_bytes → out.1 ≤ e.max_source_bytes
  pub full : IsFull e (count + length out.0) out.1 left

IsFull-at :
    (e : SelectionEnvelope) (m n b : ℕ) (cs : List ClassifiedCandidate)
    → m ≡ n
    → IsFull e m b cs
    → IsFull e n b cs
IsFull-at e m n b [] q h = tt
IsFull-at e m n b (c ∷ cs) q (inl h) = inl (omega (arith, h, q))
IsFull-at e m n b (c ∷ cs) q (inr h) = inr h

stopped :
    (e : SelectionEnvelope) (count bytes : ℕ) (c : ClassifiedCandidate)
    (cs : List ClassifiedCandidate)
    → (e.max_source_instances < count + 1) ⊎ (e.max_source_bytes < bytes + size_of c)
    → Takes e count bytes (c ∷ cs) ([], bytes)
stopped e count bytes c cs h = record {
  left = c ∷ cs;
  front = refl;
  few = λ q. omega (arith, q);
  sum = omega arith;
  small = λ q. q;
  full = IsFull-at e count (count + 0) bytes (c ∷ cs) (omega arith) h;
}

walk-Takes :
    (e : SelectionEnvelope) (count bytes : ℕ) (cs : List ClassifiedCandidate)
    → Takes e count bytes cs (walk e count bytes cs)
unfolding walk
walk-Takes e count bytes [] = record {
  left = [];
  front = refl;
  few = λ q. omega (arith, q);
  sum = omega arith;
  small = λ q. q;
  full = tt;
}
walk-Takes e count bytes (c ∷ cs) = elim (Bool-cases (ltb e.max_source_instances (count + 1))) [
  | inl q ↦ rw q (stopped e count bytes c cs (inl (ground (arith, q))))
  | inr q ↦ elim (Bool-cases (ltb e.max_source_bytes (bytes + size_of c))) [
    | inl r ↦ rw (q, r) (stopped e count bytes c cs (inr (ground (arith, r))))
    | inr r ↦
        let t = walk-Takes e (count + 1) (bytes + size_of c) cs in
        let room : count + 1 ≤ e.max_source_instances = ground (arith, q) in
        let fits : bytes + size_of c ≤ e.max_source_bytes = ground (arith, r) in
        rw (q, r)
          (record {
            left = t.left;
            front = ap (λ ds. c ∷ ds) t.front;
            few = λ h. omega (arith, t.few room);
            sum = omega (arith, t.sum);
            small = λ h. t.small fits;
            full = IsFull-at e _ _ _ t.left (omega arith) t.full;
          })
  ]
]

-- A selection is the longest front of the matching candidates in the order of their paths that keeps
-- both limits: it has at most the allowed number and bytes, counts its bytes exactly, and the
-- candidate after it, if there is one, would exceed a limit; a smaller one behind is never taken.
pub select-Takes :
    (candidates : List ClassifiedCandidate) (policy : BatchClassPolicy) (e : SelectionEnvelope)
    → let r = select candidates policy e in
      Takes e 0 0
        (order_by_path (filter (matches policy) candidates))
        (r.selected, r.source_bytes_selected)
unfolding select
select-Takes candidates policy e =
    walk-Takes e 0 0 (order_by_path (filter (matches policy) candidates))
