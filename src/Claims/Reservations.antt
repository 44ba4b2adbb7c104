-- ===== src/Claims/Reservations.antt =====
-- The reservation of embeddings: backend/app/classification/worker_claim_service.py, from its
-- reserving to its use or its return. A denied reservation is rolled back before the claim is
-- released, in a transaction of its own.
use ai_brain.Prelude.{
  ℕ, ◌+◌, String, Bool, true, false, ◌&&◌, Option, none, some, leb, ◌==◌, if◌then◌else◌, find,
  modify,
}
use ai_brain.Batch.Model.{IngestionBatch, BatchStatus, running, batch_keyed}
use ai_brain.Batch.Guard.{
  BatchResourceGuard, GuardResult, check_before_expensive_operation, embedding, normal, soft_stop,
  hard_stop,
}
use ai_brain.Claims.Rows.{ContentIdentityGroup, ContentPipelineState, group_keyed}
use ai_brain.Claims.Groups.{
  Store, Outcome, returned, integrity_error, refund, row_at, release_content_identity_group_claim,
}

pub data ReservationDenialReason : Type 0 where
  fenced_out batch_not_found batch_not_running envelope_exhausted : ReservationDenialReason
  resource_guard_soft_stop resource_guard_hard_stop : ReservationDenialReason

pub record ReservationOutcome : Type 0 where
  pub reserved : Bool
  pub amount : Option ℕ
  pub denial_reason : Option ReservationDenialReason
  pub guard_result : Option GuardResult

-- The claim is released, and the reason returned.
abbrev denied :
    ℕ
    → ℕ
    → ReservationDenialReason
    → Option GuardResult
    → Store
    → Outcome ReservationOutcome × Store
denied id generation reason guard s = (
  returned (record {
    reserved = false;
    amount = none;
    denial_reason = some reason;
    guard_result = guard;
  }),
  (release_content_identity_group_claim id generation none s).1,
)

abbrev pub is_running : BatchStatus → Bool
is_running running = true
is_running _ = false

-- The condition of the batch's update.
abbrev pub has_room : ℕ → IngestionBatch → Bool
has_room n b = is_running b.status && leb (b.embeddings_reserved + n) b.max_embeddings

abbrev pub set_reservation : ℕ → ℕ → ContentIdentityGroup → ContentIdentityGroup
set_reservation n batch_id g = record g {
  reserved_embeddings = some n;
  reserved_embeddings_batch_id = some batch_id;
}

abbrev pub clear_reservation : ContentIdentityGroup → ContentIdentityGroup
clear_reservation g = record g { reserved_embeddings = none; reserved_embeddings_batch_id = none }

abbrev pub credited : ℕ → IngestionBatch → IngestionBatch
credited n b = record b { embeddings_reserved = b.embeddings_reserved + n }

-- Both updates or neither. A reservation of nothing breaks a check constraint of the group's row.
unfoldable pub reserve_rows :
    ℕ → ℕ → IngestionBatch → ℕ → Store → Outcome ReservationOutcome × Store
reserve_rows group_id my_generation batch n s = elim (row_at group_id my_generation s.groups) [
  | none ↦ denied group_id my_generation fenced_out none s
  | some g ↦
      if n == 0
      then (integrity_error, s)
      else if has_room n batch
      then (
        returned (record {
          reserved = true;
          amount = some n;
          denial_reason = none;
          guard_result = none;
        }),
        record s {
          groups = modify group_id (set_reservation n batch.id) s.groups;
          batches = modify batch.id (credited n) s.batches;
        },
      )
      else denied group_id my_generation
          (if is_running batch.status then envelope_exhausted else batch_not_running) none s
]

-- The guard, if one is given, is asked first; `reachable` is the answer of Ollama to it.
unfoldable pub reserve_embeddings :
    (String → ℕ)
    → Bool
    → ℕ
    → ℕ
    → ℕ
    → ℕ
    → Option BatchResourceGuard
    → Store
    → (Outcome ReservationOutcome × Store) × Option BatchResourceGuard
reserve_embeddings free_at reachable group_id my_generation batch_id n guard s =
    elim (find batch_id s.batches) [
      | none ↦ (denied group_id my_generation batch_not_found none s, guard)
      | some batch ↦ elim guard [
        | none ↦ (reserve_rows group_id my_generation batch n s, none)
        | some g ↦
            let (r, g') = check_before_expensive_operation free_at reachable embedding g in
            (
              elim r.tier [
                | normal ↦ reserve_rows group_id my_generation batch n s
                | soft_stop ↦ denied group_id my_generation resource_guard_soft_stop (some r) s
                | hard_stop ↦ denied group_id my_generation resource_guard_hard_stop (some r) s
              ],
              some g',
            )
      ]
    ]

unfoldable pub consume_embedding_reservation : ℕ → ℕ → ContentPipelineState → Store → Bool × Store
consume_embedding_reservation group_id my_generation new_pipeline_state s =
    elim (row_at group_id my_generation s.groups) [
      | none ↦ (false, s)
      | some g ↦ elim g.reserved_embeddings [
        | none ↦ (false, s)
        | some n ↦
            release_content_identity_group_claim group_id my_generation (some new_pipeline_state)
              (record s { groups = modify group_id clear_reservation s.groups })
      ]
    ]

unfoldable pub release_embedding_reservation : ℕ → ℕ → Store → Outcome Bool × Store
release_embedding_reservation group_id my_generation s =
    elim (row_at group_id my_generation s.groups) [
      | none ↦ (returned false, s)
      | some g ↦ elim g.reserved_embeddings [
        | none ↦ (returned false, s)
        | some n ↦ elim (refund n g.reserved_embeddings_batch_id s.batches) [
          | none ↦ (integrity_error, s)
          | some batches ↦
              let s' = record s {
                groups = modify group_id clear_reservation s.groups;
                batches = batches;
              } in
              (
                returned true,
                (release_content_identity_group_claim group_id my_generation none s').1,
              )
        ]
      ]
    ]
