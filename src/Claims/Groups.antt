-- ===== src/Claims/Groups.antt =====
-- The queue of content identity groups: backend/app/classification/worker_claim_service.py, the
-- claim and its release. Each call is one transaction; `locked` tells the rows that other sessions
-- have locked, which `SKIP LOCKED` passes over. A call that would break a check constraint of the
-- tables ends in an integrity error, and its transaction is rolled back.
use ai_brain.Prelude.{
  ℕ, ◌+◌, ◌-◌, String, Bool, true, false, ◌&&◌, ◌||◌, not, Option, none, some, List, ltb, ◌==◌,
  if◌then◌else◌, is_none, any, find, modify, oldest,
}
use ai_brain.Batch.Model.{IngestionBatch, batch_keyed}
use ai_brain.Claims.Rows.{
  ContentIdentityGroup, ContentPipelineState, SourceInstance, IngestionAttempt, group_keyed,
  state_eq,
}

-- The tables that the service reads and writes.
pub record Store : Type 0 where
  pub groups : List ContentIdentityGroup
  pub instances : List SourceInstance
  pub attempts : List IngestionAttempt
  pub batches : List IngestionBatch

pub data Outcome (A : Type 0) : Type 0 where
  returned : A → Outcome A
  integrity_error : Outcome A

-- `claimed_at < :stale_before`, which is not true of NULL
abbrev pub is_stale : ℕ → Option ℕ → Bool
is_stale stale_before none = false
is_stale stale_before (some t) = ltb t stale_before

abbrev pub is_free : ℕ → Option String → Option ℕ → Bool
is_free stale_before by at = is_none by || is_stale stale_before at

-- The arguments of a claim, and the two readings of the clock in it.
pub record GroupClaim : Type 0 where
  pub worker_id : String
  pub eligible_pipeline_states : List ContentPipelineState
  pub lease_duration : ℕ
  pub claiming_pipeline_state : Option ContentPipelineState
  pub selecting_at : ℕ
  pub claiming_at : ℕ

abbrev pub or_else {ℓ} : {A : Type ℓ} → Option A → A → A
or_else none a = a
or_else (some b) a = b

unfoldable pub is_claimable : (ℕ → Bool) → GroupClaim → ContentIdentityGroup → Bool
is_claimable locked c g =
    any (state_eq g.pipeline_state) c.eligible_pipeline_states
    && (is_free (c.selecting_at - c.lease_duration) g.claimed_by g.claimed_at && not (locked g.id))

unfoldable pub granted : GroupClaim → ContentIdentityGroup → ContentIdentityGroup
granted c g = record g {
  claimed_by = some c.worker_id;
  claimed_at = some c.claiming_at;
  claim_generation = g.claim_generation + 1;
  reserved_embeddings = none;
  reserved_embeddings_batch_id = none;
  pipeline_state = or_else c.claiming_pipeline_state g.pipeline_state;
}

abbrev pub debited : ℕ → IngestionBatch → IngestionBatch
debited n b = record b { embeddings_reserved = b.embeddings_reserved - n }

-- Gives an amount back to the batch that owns it, if it is there; `none` stands for a count below
-- zero, which a check constraint forbids.
unfoldable pub refund : ℕ → Option ℕ → List IngestionBatch → Option (List IngestionBatch)
refund n none batches = some batches
refund n (some id) batches = elim (find id batches) [
  | none ↦ some batches
  | some b ↦ if ltb b.embeddings_reserved n then none else some (modify id (debited n) batches)
]

-- The abandoned reservation of a row that is claimed again.
unfoldable pub recover : Option ℕ → Option ℕ → List IngestionBatch → Option (List IngestionBatch)
recover none id batches = some batches
recover (some n) id batches = refund n id batches

unfoldable pub claim_content_identity_group :
    (ℕ → Bool) → GroupClaim → Store → Outcome (Option ContentIdentityGroup) × Store
claim_content_identity_group locked c s =
    elim (oldest (is_claimable locked c) (λ g. g.created_at) s.groups) [
      | none ↦ (returned none, s)
      | some g ↦ elim (recover g.reserved_embeddings g.reserved_embeddings_batch_id s.batches) [
        | none ↦ (integrity_error, s)
        | some batches ↦
            let groups = modify g.id (granted c) s.groups in
            (returned (find g.id groups), record s { groups = groups; batches = batches })
      ]
    ]

-- The row of a group, if its generation is the one given.
unfoldable pub row_at : ℕ → ℕ → List ContentIdentityGroup → Option ContentIdentityGroup
row_at id generation groups = elim (find id groups) [
  | none ↦ none
  | some g ↦ if g.claim_generation == generation then some g else none
]

abbrev pub released : Option ContentPipelineState → ContentIdentityGroup → ContentIdentityGroup
released state g = record g {
  claimed_by = none;
  claimed_at = none;
  pipeline_state = or_else state g.pipeline_state;
}

unfoldable pub release_content_identity_group_claim :
    ℕ → ℕ → Option ContentPipelineState → Store → Bool × Store
release_content_identity_group_claim id generation state s = elim (row_at id generation s.groups) [
  | none ↦ (false, s)
  | some g ↦ (true, record s { groups = modify id (released state) s.groups })
]
