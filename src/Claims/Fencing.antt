-- ===== src/Claims/Fencing.antt =====
-- A worker whose claim was granted to another since then cannot change anything.
use ai_brain.Prelude.{
  ℕ, ◌+◌, ◌≤◌, ◌≡◌, refl, sym, ap, String, Bool, false, Option, none, some, List, arith, ◌==◌, find,
  modify, find-modify, inl, inr, Option-cases, Bool-cases, Distinct,
}
use mathlib.Core.Path.{subst}
use ai_brain.Batch.Model.{IngestionBatch, batch_keyed}
use ai_brain.Batch.Guard.{BatchResourceGuard, check_before_expensive_operation, embedding}
use ai_brain.Claims.Rows.{ContentIdentityGroup, ContentPipelineState, group_keyed}
use ai_brain.Claims.Groups.{
  Store, returned, granted, released, row_at, release_content_identity_group_claim,
}
use ai_brain.Claims.Reservations.{
  set_reservation, clear_reservation, reserve_rows, reserve_embeddings,
  consume_embedding_reservation, release_embedding_reservation,
}
use ai_brain.Claims.Changes.{
  Change, Changes, grant, release, reserve, consume, refunded, others, created, done, later,
  Tier-cases,
}
use ai_brain.Claims.Costs.{is_reserved}
use ai_brain.Claims.Runs.{Call, perform_all, perform_all-Changes}

-- The group is there, at least at the generation given.
pub record Reached (id generation : ℕ) (groups : List ContentIdentityGroup) : Type 0 where
  pub group : ContentIdentityGroup
  pub found : find id groups ≡ some group
  pub grown : generation ≤ group.claim_generation

Reached-modify :
    (id generation k : ℕ) (f : ContentIdentityGroup → ContentIdentityGroup)
    (groups : List ContentIdentityGroup)
    → ((x : ContentIdentityGroup) → (f x).id ≡ x.id)
    → ((x : ContentIdentityGroup) → x.claim_generation ≤ (f x).claim_generation)
    → Reached id generation groups
    → Reached id generation (modify k f groups)
Reached-modify id generation k f groups same grows h = elim (Bool-cases (k == id)) [
  | inl e ↦ record {
    group = f h.group;
    found = rw (find-modify id k f groups same, e, h.found) refl;
    grown = omega (arith, h.grown, grows h.group);
  }
  | inr e ↦ record {
    group = h.group;
    found = rw (find-modify id k f groups same, e) h.found;
    grown = h.grown;
  }
]

Change-Reached :
    (id n : ℕ) {s s' : Store} → Change s s' → Reached id n s.groups → Reached id n s'.groups
unfolding granted
Change-Reached id n {s} (grant c g batches f r) h =
    Reached-modify id n g.id (granted c) s.groups (λ x. refl) (λ x. omega arith) h
Change-Reached id n {s} (release k generation state g f) h =
    Reached-modify id n k (released state) s.groups (λ x. refl) (λ x. omega arith) h
Change-Reached id n {s} (reserve k generation m g b f q room) h =
    Reached-modify id n k (set_reservation m b.id) s.groups (λ x. refl) (λ x. omega arith) h
Change-Reached id n {s} (consume k generation g f) h =
    Reached-modify id n k clear_reservation s.groups (λ x. refl) (λ x. omega arith) h
Change-Reached id n {s} (refunded k generation m g batches f q r) h =
    Reached-modify id n k clear_reservation s.groups (λ x. refl) (λ x. omega arith) h
Change-Reached id n (others s' q r t) h = subst (Reached id n) (sym q) h
Change-Reached id n (created b f z l) h = h

pub Changes-Reached :
    (id n : ℕ) {s s' : Store} → Changes s s' → Reached id n s.groups → Reached id n s'.groups
Changes-Reached id n (done s) h = h
Changes-Reached id n (later s s' s'' c r) h = Changes-Reached id n r (Change-Reached id n c h)

-- Every call under the generation writes nothing and says so.
pub record Fenced (id generation : ℕ) (s : Store) : Type 0 where
  pub releases :
      (state : Option ContentPipelineState)
      → release_content_identity_group_claim id generation state s ≡ (false, s)
  pub reserves :
      (free_at : String → ℕ) (reachable : Bool) (batch n : ℕ) (guard : Option BatchResourceGuard)
      → let r = (reserve_embeddings free_at reachable id generation batch n guard s).0 in
        (is_reserved r.0 ≡ false) × (r.1 ≡ s)
  pub consumes :
      (state : ContentPipelineState)
      → consume_embedding_reservation id generation state s ≡ (false, s)
  pub gives_back : release_embedding_reservation id generation s ≡ (returned false, s)

fenced_row :
    (id generation : ℕ) (groups : List ContentIdentityGroup)
    → Reached id (generation + 1) groups
    → row_at id generation groups ≡ none
unfolding row_at
fenced_row id generation groups h =
    let e : (h.group.claim_generation == generation) ≡ false = ground (arith, h.grown) in
    rw (row_at, h.found, e) refl

module _ (id generation : ℕ) (s : Store) (missing : row_at id generation s.groups ≡ none) where
  released_nothing :
      (state : Option ContentPipelineState)
      → release_content_identity_group_claim id generation state s ≡ (false, s)
  unfolding release_content_identity_group_claim
  released_nothing state = rw (release_content_identity_group_claim, missing) refl

  reserved_no_rows :
      (b : IngestionBatch) (n : ℕ)
      → let r = reserve_rows id generation b n s in (is_reserved r.0 ≡ false) × (r.1 ≡ s)
  unfolding reserve_rows
  reserved_no_rows b n = rw (reserve_rows, missing) (refl, ap (λ r. r.1) (released_nothing none))

  reserved_nothing :
      (free_at : String → ℕ) (reachable : Bool) (batch n : ℕ) (guard : Option BatchResourceGuard)
      → let r = (reserve_embeddings free_at reachable id generation batch n guard s).0 in
        (is_reserved r.0 ≡ false) × (r.1 ≡ s)
  unfolding reserve_embeddings
  reserved_nothing free_at reachable batch n guard =
      let away : (release_content_identity_group_claim id generation none s).1 ≡ s =
        ap (λ r. r.1) (released_nothing none) in
      elim (Option-cases (find batch s.batches)) [
        | inl o ↦ rw (reserve_embeddings, o) (refl, away)
        | inr (b, o) ↦ elim (Option-cases guard) [
          | inl q ↦ rw (reserve_embeddings, o, q) (reserved_no_rows b n)
          | inr (g, q) ↦
              elim (Tier-cases
                (check_before_expensive_operation free_at reachable embedding g).0.tier) [
                  | inl t ↦ rw (reserve_embeddings, o, q, t) (reserved_no_rows b n)
                  | inr (inl t) ↦ rw (reserve_embeddings, o, q, t) (refl, away)
                  | inr (inr t) ↦ rw (reserve_embeddings, o, q, t) (refl, away)
                ]
        ]
      ]

  fenced : Fenced id generation s
  unfolding consume_embedding_reservation release_embedding_reservation
  fenced = record {
    releases = released_nothing;
    reserves = reserved_nothing;
    consumes = λ state. rw (consume_embedding_reservation, missing) refl;
    gives_back = rw (release_embedding_reservation, missing) refl;
  }

-- Once a group is at a later generation, whatever calls follow in any order, every call under the
-- earlier generation writes nothing, reserves nothing and returns false.
pub perform_all-Fenced :
    (id generation : ℕ) (calls : List Call) (s : Store)
    → Distinct s.groups
    → Reached id (generation + 1) s.groups
    → Fenced id generation (perform_all calls s)
perform_all-Fenced id generation calls s d h = fenced id generation (perform_all calls s) (
    fenced_row id generation _
      (Changes-Reached id (generation + 1) (perform_all-Changes calls s d) h))
