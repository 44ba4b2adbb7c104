-- ===== src/Dedup/Executor/Ordering.antt =====
-- The plan's actions in the order of execution: the same actions, each once.
use ai_brain.Prelude.{
  ℕ, ◌≡◌, refl, ◌∙◌, inl, inr, Bool, true, false, some, List, [], ◌∷◌, map, arith, ◌==◌, ==_refl,
  leb, Bool-cases, filter, find, find_here, find_there, All, All-filter, All-mono, All-both,
  All-kept, All-map, all_of_All,
}
use ai_brain.Dedup.Records.{
  Database, DedupExecutionPlanAction, DedupExecutionActionAudit, plan_action_keyed,
}
use ai_brain.Dedup.Plans.{actions_of}
use ai_brain.Dedup.Executions.{contains_id, same_ids, audited, audits_of}
use ai_brain.Dedup.Executor.{insert_by_id, order_by_id}
use ai_brain.Dedup.Executor.Loop.{Distinct}

abbrev Rows : Type 0
Rows = List DedupExecutionPlanAction

abbrev Differs : DedupExecutionPlanAction → DedupExecutionPlanAction → Type 0
Differs p q = (p.id == q.id) ≡ false

All-insert :
    (P : DedupExecutionPlanAction → Type 0) (a : DedupExecutionPlanAction) (ps : Rows)
    → P a
    → All P ps
    → All P (insert_by_id a ps)
unfolding insert_by_id
All-insert P a [] h k = (h, tt)
All-insert P a (p ∷ ps) h k = elim (Bool-cases (leb a.id p.id)) [
  | inl e ↦ rw e (h, k)
  | inr e ↦ rw e (k.0, All-insert P a ps h k.1)
]

pub All-order :
    (P : DedupExecutionPlanAction → Type 0) (ps : Rows) → All P ps → All P (order_by_id ps)
unfolding order_by_id
All-order P [] h = tt
All-order P (p ∷ ps) h = All-insert P p (order_by_id ps) h.0 (All-order P ps h.1)

Distinct-insert :
    (a : DedupExecutionPlanAction) (ps : Rows)
    → All (Differs a) ps
    → Distinct ps
    → Distinct (insert_by_id a ps)
unfolding insert_by_id
Distinct-insert a [] h d = (tt, tt)
Distinct-insert a (p ∷ ps) h d = elim (Bool-cases (leb a.id p.id)) [
  | inl e ↦ rw e (h, d)
  | inr e ↦
      rw e (All-insert (Differs p) a ps (ground (arith, h.0)) d.0, Distinct-insert a ps h.1 d.1)
]

Distinct-order : (ps : Rows) → Distinct ps → Distinct (order_by_id ps)
unfolding order_by_id
Distinct-order [] d = tt
Distinct-order (p ∷ ps) d =
    Distinct-insert p (order_by_id ps) (All-order (Differs p) ps d.0) (Distinct-order ps d.1)

Distinct-filter :
    (f : DedupExecutionPlanAction → Bool) (ps : Rows) → Distinct ps → Distinct (filter f ps)
Distinct-filter f [] d = tt
Distinct-filter f (p ∷ ps) d = elim (Bool-cases (f p)) [
  | inl e ↦ rw e (All-filter (Differs p) f ps d.0, Distinct-filter f ps d.1)
  | inr e ↦ rw e (Distinct-filter f ps d.1)
]

pub Distinct-planned :
    (plan_id : ℕ) (db : Database)
    → Distinct db.plan_actions
    → Distinct (order_by_id (actions_of plan_id db))
unfolding actions_of
Distinct-planned plan_id db d = Distinct-order _ (Distinct-filter _ _ d)

-- A row with a unique key is found by it.
finds : (ps : Rows) → Distinct ps → All (λ p. find p.id ps ≡ some p) ps
finds [] d = tt
finds (p ∷ ps) d = (
  find_here p.id p ps (==_refl p.id),
  All-mono _ _ ps (λ q (a, b). find_there q.id p ps a ∙ b) (All-both _ _ ps d.0 (finds ps d.1)),
)

-- A plan's rows in order are rows of the table and of the plan.
pub planned_rows :
    (plan_id : ℕ) (db : Database)
    → Distinct db.plan_actions
    → All
        (λ p. (find p.id db.plan_actions ≡ some p) × ((p.plan_id == plan_id) ≡ true))
        (order_by_id (actions_of plan_id db))
unfolding actions_of
planned_rows plan_id db d =
    All-order _ _
      (All-both _ _ _ (All-filter _ _ _ (finds db.plan_actions d)) (All-kept _ db.plan_actions))

abbrev pub ids_of : Rows → List ℕ
ids_of = map (λ p. p.id)

contains-insert :
    (j : ℕ) (a : DedupExecutionPlanAction) (ps : Rows)
    → contains_id (ids_of (insert_by_id a ps)) j ≡ contains_id (ids_of (a ∷ ps)) j
unfolding insert_by_id
contains-insert j a [] = refl
contains-insert j a (p ∷ ps) = ground (arith, contains-insert j a ps)

contains-order :
    (j : ℕ) (ps : Rows) → contains_id (ids_of (order_by_id ps)) j ≡ contains_id (ids_of ps) j
unfolding order_by_id
contains-order j [] = refl
contains-order j (p ∷ ps) =
    contains-insert j p (order_by_id ps) ∙ ground (arith, contains-order j ps)

contains_own : (ps : Rows) → All (λ p. contains_id (ids_of ps) p.id ≡ true) ps
contains_own [] = tt
contains_own (p ∷ ps) =
    (rw (==_refl p.id) refl, All-mono _ _ ps (λ q h. ground (arith, h)) (contains_own ps))

-- The ids in order are the same set.
pub same_ids-order : (ps : Rows) → same_ids (ids_of (order_by_id ps)) (ids_of ps) ≡ true
unfolding same_ids
same_ids-order ps =
    let own = contains_own ps in
    let there = all_of_All (contains_id (ids_of ps)) _ (All-map _ _ _ (All-order _ ps own)) in
    let back =
      all_of_All (contains_id (ids_of (order_by_id ps))) _
        (All-map _ _ _ (All-mono _ _ ps (λ q h. contains-order q.id ps ∙ h) own)) in
    rw (there, back) refl

no_match :
    (id plan_action_id : ℕ) (xs : List DedupExecutionActionAudit)
    → filter (λ a. a.execution_id == id) xs ≡ []
    → audited id plan_action_id xs ≡ false
unfolding audited
no_match id plan_action_id [] h = refl
no_match id plan_action_id (a ∷ xs) h = ground (arith, no_match id plan_action_id xs)

-- With no audits of an execution, none of its actions is audited.
pub unaudited :
    (id plan_action_id : ℕ) (db : Database)
    → audits_of id db ≡ []
    → audited id plan_action_id db.audits ≡ false
unfolding audits_of
unaudited id plan_action_id db h = no_match id plan_action_id db.audits h
