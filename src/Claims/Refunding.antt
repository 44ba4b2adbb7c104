-- ===== src/Claims/Refunding.antt =====
-- The count of a batch in its row, and what a refund leaves of it.
use ai_brain.Prelude.{
  ℕ, ◌+◌, ◌-◌, ◌≤◌, ◌≡◌, ◌⊎◌, ltb, refl, sym, ap, ==_iff, ◌∙◌, true, false, Option, none, some,
  List, inl, inr, arith, ◌==◌, Bool-cases, Option-cases, sum_by-modify, find, modify, find-modify,
}
use mathlib.Core.Option
use mathlib.Core.Option.{some_inj}
use mathlib.Core.Path.{subst}
use ai_brain.Batch.Model.{IngestionBatch, batch_keyed}
use ai_brain.Claims.Rows.{ContentIdentityGroup, group_keyed}
use ai_brain.Claims.Groups.{refund, recover, debited}
use ai_brain.Claims.Changes.{share, share_of, live, budget, budget_of}

-- An update of one group moves what is held by its shares.
pub live-modify :
    (b id : ℕ) (f : ContentIdentityGroup → ContentIdentityGroup) (g : ContentIdentityGroup)
    (groups : List ContentIdentityGroup)
    → find id groups ≡ some g
    → live b (modify id f groups) + share_of b g ≡ live b groups + share_of b (f g)
live-modify b id f g groups h = sum_by-modify (share_of b) id f groups g h

pub budget-other :
    (b id : ℕ) (f : IngestionBatch → IngestionBatch) (batches : List IngestionBatch)
    → ((x : IngestionBatch) → (f x).id ≡ x.id)
    → (id == b) ≡ false
    → budget b (modify id f batches) ≡ budget b batches
budget-other b id f batches k e =
    ap (Option.map budget_of) (find-modify b id f batches k ∙ rw e refl)

pub budget-own :
    (b id : ℕ) (f : IngestionBatch → IngestionBatch) (x : IngestionBatch)
    (batches : List IngestionBatch)
    → ((x : IngestionBatch) → (f x).id ≡ x.id)
    → (id == b) ≡ true
    → find id batches ≡ some x
    → budget b (modify id f batches) ≡ some (budget_of (f x))
budget-own b id f x batches k e h =
    let q : id ≡ b = (==_iff id b).0 e in
    ap (Option.map budget_of) {y = some (f x)}
      (rw (find-modify b id f batches k, e, subst (λ j. find j batches ≡ some x) q h) refl)

-- What is found under an equal key.
pub budget-found :
    (b id : ℕ) (x : IngestionBatch) (batches : List IngestionBatch)
    → (id == b) ≡ true
    → find id batches ≡ some x
    → budget b batches ≡ some (budget_of x)
budget-found b id x batches e h =
    ap (Option.map budget_of) (subst (λ j. find j batches ≡ some x) ((==_iff id b).0 e) h)

pub budget-known :
    (b id : ℕ) (x : IngestionBatch) (used cap : ℕ) (batches : List IngestionBatch)
    → (id == b) ≡ true
    → find id batches ≡ some x
    → budget b batches ≡ some (record { used = used; cap = cap })
    → budget_of x ≡ record { used = used; cap = cap }
budget-known b id x used cap batches e h q = some_inj.0 (sym (budget-found b id x batches e h) ∙ q)

-- What a refund did: nothing where the owner is gone, or the owner counted it.
pub record Debited (n c : ℕ) (batches batches' : List IngestionBatch) : Type 0 where
  pub owner : IngestionBatch
  pub found : find c batches ≡ some owner
  pub enough : n ≤ owner.embeddings_reserved
  pub result : batches' ≡ modify c (debited n) batches

pub refund-Debited :
    (n c : ℕ) (batches batches' : List IngestionBatch)
    → refund n (some c) batches ≡ some batches'
    → ((find c batches ≡ none) × (batches' ≡ batches)) ⊎ Debited n c batches batches'
unfolding refund
refund-Debited n c batches batches' h = elim (Option-cases (find c batches)) [
  | inl o ↦ inl (o, ground (arith, h, o))
  | inr (x, o) ↦ elim (Bool-cases (ltb x.embeddings_reserved n)) [
    | inl l ↦ absurd (ground (arith, h, o, l))
    | inr l ↦ inr (record {
      owner = x;
      found = o;
      enough = ground (arith, l);
      result = ground (arith, h, o, l);
    })
  ]
]

-- A refund lowers the count of the owner by the amount.
pub record Lowered (b used cap n : ℕ) (batches' : List IngestionBatch) : Type 0 where
  pub rest : ℕ
  pub split : rest + n ≡ used
  pub counted : budget b batches' ≡ some (record { used = rest; cap = cap })

pub same_budget :
    (b used cap : ℕ) (batches batches' : List IngestionBatch)
    → budget b batches' ≡ budget b batches
    → budget b batches ≡ some (record { used = used; cap = cap })
    → Lowered b used cap 0 batches'
same_budget b used cap batches batches' e q = record {
  rest = used;
  split = omega arith;
  counted = e ∙ q;
}

pub refund-Lowered :
    (b n used cap : ℕ) (owner : Option ℕ) (batches batches' : List IngestionBatch)
    → refund n owner batches ≡ some batches'
    → budget b batches ≡ some (record { used = used; cap = cap })
    → Lowered b used cap (share b (some n) owner) batches'
unfolding refund
refund-Lowered b n used cap none batches batches' h q =
    same_budget b used cap batches batches' (ap (budget b) (ground (arith, h))) q
refund-Lowered b n used cap (some c) batches batches' h q = elim (Bool-cases (c == b)) [
  | inr e ↦ rw e (
      same_budget b used cap batches batches'
        (elim (refund-Debited n c batches batches' h) [
          | inl (o, r) ↦ ap (budget b) r
          | inr d ↦ ap (budget b) d.result ∙ budget-other b c (debited n) batches (λ x. refl) e
        ])
        q)
  | inl e ↦ rw e (elim (refund-Debited n c batches batches' h) [
    | inl (o, r) ↦
        let gone : budget b batches ≡ none =
          ap (Option.map budget_of) (subst (λ j. find j batches ≡ none) ((==_iff c b).0 e) o) in
        absurd cc
    | inr d ↦
        let known : budget_of d.owner ≡ record { used = used; cap = cap } =
          budget-known b c d.owner used cap batches e d.found q in
        record {
          rest = d.owner.embeddings_reserved - n;
          split = omega (arith, d.enough, ap (λ x. x.used) known);
          counted =
              ap (budget b) d.result
              ∙ budget-own b c (debited n) d.owner batches (λ x. refl) e d.found
              ∙ ap (λ k. some (record { used = d.owner.embeddings_reserved - n; cap = k }))
                  (ap (λ x. x.cap) known);
        }
  ])
]

pub recover-Lowered :
    (b used cap : ℕ) (amount owner : Option ℕ) (batches batches' : List IngestionBatch)
    → recover amount owner batches ≡ some batches'
    → budget b batches ≡ some (record { used = used; cap = cap })
    → Lowered b used cap (share b amount owner) batches'
unfolding recover
recover-Lowered b used cap none owner batches batches' h q =
    same_budget b used cap batches batches' (ap (budget b) (sym (some_inj.0 h))) q
recover-Lowered b used cap (some n) owner batches batches' h q =
    refund-Lowered b n used cap owner batches batches' h q
