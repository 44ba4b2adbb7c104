-- ===== src/Claims/Examples.antt =====
-- The claim service on the sample tables, and its theorems there.
use ai_brain.Prelude.{
  ◌≡◌, refl, true, false, not, ◌&&◌, none, some, List, [], ◌∷◌, find, modify, oldest, Distinct,
  arith,
}
use ai_brain.Batch.Model.{running, paused, batch_keyed}
use ai_brain.Claims.Rows.{embedded, SourceInstance, group_keyed, state_eq, instance_keyed}
use ai_brain.Claims.Groups.{
  returned, released, Store, is_claimable, granted, recover, refund, row_at,
  claim_content_identity_group, release_content_identity_group_claim,
}
use ai_brain.Claims.Reservations.{
  clear_reservation, reserve_rows, reserve_embeddings, consume_embedding_reservation,
  release_embedding_reservation,
}
use ai_brain.Claims.Changes.{budget, live}
use ai_brain.Claims.Meter.{Shows, Moved}
use ai_brain.Claims.Bounds.{Within}
use ai_brain.Claims.Granting.{Granted, claim_content_identity_group-Granted}
use ai_brain.Claims.Runs.{
  Call, claim_call, reserve_call, consume_call, give_back_call, perform_all, spent_by,
  perform_all-Moved, perform_all-Within,
}
use ai_brain.Claims.Returning.{reserve_rows-release_embedding_reservation}
use ai_brain.Claims.Costs.{is_reserved}
use ai_brain.Claims.Fencing.{Fenced, perform_all-Fenced}
use ai_brain.Claims.Instances.{
  InstanceClaim, is_for_identity_resolution, is_for_archive_processing,
  claim_source_instance_for_identity_resolution, claim_source_instance_for_archive_processing,
}
use ai_brain.Claims.Admission.{Taken, claim_source_instance_queues-Taken}
use ai_brain.Claims.Samples.{batch, group, store, store-Within, group_claim}

-- The second worker takes over, holds three, and spends them; the first comes too late.
abbrev calls : List Call
calls =
    claim_call (λ id. false) group_claim
    ∷ reserve_call (λ path. 0) true 7 4 4 3 none
    ∷ give_back_call 7 3
    ∷ consume_call 7 4 embedded
    ∷ []

rows-Distinct : Distinct (store running).groups
rows-Distinct = (tt, tt)

store-Shows : Shows 4 50 (store running) (record { held = 5; spent = 5 })
unfolding find
store-Shows = record { counted = refl; holds = refl; within = omega arith }

group_found : find 7 (store running).groups ≡ some group
unfolding find
group_found = refl

perform_all-Moved_example :
    Moved 4 50
      (spent_by 4 calls (store running))
      (record { held = 5; spent = 5 })
      (perform_all calls (store running))
perform_all-Moved_example = perform_all-Moved 4 50 _ calls (store running) rows-Distinct store-Shows

perform_all-Within_example : Within (perform_all calls (store running))
perform_all-Within_example = perform_all-Within calls (store running) rows-Distinct store-Within

-- What is left of the run: eight embeddings are counted, of which none is held any more.
calls_test :
    (budget 4 (perform_all calls (store running)).batches ≡ some (record { used = 8; cap = 50 }))
    × (live 4 (perform_all calls (store running)).groups ≡ 0)
unfolding find modify oldest perform_all state_eq is_claimable granted recover refund row_at
    claim_content_identity_group release_content_identity_group_claim reserve_rows
    reserve_embeddings consume_embedding_reservation release_embedding_reservation
calls_test = (refl, refl)

claim_content_identity_group-Granted_example :
    Granted
      (λ id. false)
      group_claim
      (store running)
      (claim_content_identity_group (λ id. false) group_claim (store running))
claim_content_identity_group-Granted_example =
    claim_content_identity_group-Granted (λ id. false) group_claim (store running) rows-Distinct
      store-Within

perform_all-Fenced_example : Fenced 7 2 (perform_all calls (store running))
perform_all-Fenced_example =
    perform_all-Fenced 7 2 calls (store running) rows-Distinct
      (record { group = group; found = group_found; grown = omega arith })

abbrev instance_claim : InstanceClaim
instance_claim = record {
  worker_id = "w1";
  lease_duration = 50;
  classification_run_id = some 1;
  exclude_ids = [];
  selecting_at = 200;
  claiming_at = 201;
}

-- The batch is paused between the two statements.
abbrev pausing : Store → Store
pausing s = record s { batches = batch paused ∷ [] }

claim_source_instance_queues-Taken_example :
    Taken
      (λ i. is_for_identity_resolution instance_claim (store running) i && not false)
      instance_claim
      (store running)
      (pausing (store running))
      (claim_source_instance_for_identity_resolution
        (λ id. false)
        pausing
        instance_claim
        (store running))
    × (Taken
          (λ i. is_for_archive_processing instance_claim (store running) i && not false)
          instance_claim
          (store running)
          (pausing (store running))
          (claim_source_instance_for_archive_processing
            (λ id. false)
            pausing
            instance_claim
            (store running))
        × ((i : SourceInstance)
            → is_for_identity_resolution instance_claim (store running) i ≡ true
            → is_for_archive_processing instance_claim (store running) i ≡ false))
claim_source_instance_queues-Taken_example =
    claim_source_instance_queues-Taken (λ id. false) pausing instance_claim instance_claim
      (store running) (store running)

batch_found : find 4 (store running).batches ≡ some (batch running)
unfolding find
batch_found = refl

three_reserved : is_reserved (reserve_rows 7 3 (batch running) 3 (store running)).0 ≡ true
unfolding reserve_rows row_at find
three_reserved = refl

reserve_rows-release_embedding_reservation_example :
    release_embedding_reservation 7 3 (reserve_rows 7 3 (batch running) 3 (store running)).1 ≡ (
      returned true,
      record (store running) {
        groups = modify 7 (λ g. released none (clear_reservation g)) (store running).groups;
      },
    )
reserve_rows-release_embedding_reservation_example =
    reserve_rows-release_embedding_reservation 7 3 3 (batch running) (store running) batch_found
      three_reserved
