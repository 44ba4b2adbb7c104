-- ===== src/Claims/Instances.antt =====
-- The two queues of source instances: backend/app/classification/worker_claim_service.py. A claim
-- is a SELECT and then an UPDATE that checks again; `between` is what other sessions commit between
-- the two statements.
use ai_brain.Prelude.{
  ℕ, ◌+◌, ◌-◌, String, Bool, true, false, ◌&&◌, not, Option, none, some, List, [], ◌∷◌, ◌==◌,
  if◌then◌else◌, is_none, any, find, modify, oldest, opt_eq, length, leb, drop,
}
use ai_brain.Paths.{Text, codes, lower, text_beq}
use ai_brain.Batch.Model.{IngestionBatch}
use ai_brain.Claims.Rows.{SourceInstance, IngestionAttempt, instance_keyed, is_succeeded}
use ai_brain.Claims.Groups.{Store, is_free}
use ai_brain.Claims.Reservations.{is_running}

abbrev archive_suffixes : List Text
archive_suffixes = codes ".zip" ∷ codes ".7z" ∷ []

abbrev ends_with : Text → Text → Bool
ends_with suffix text =
    leb (length suffix) (length text) && text_beq (drop (length text - length suffix) text) suffix

-- `root_t7_path ILIKE '%<suffix>'` for one of the suffixes
unfoldable pub is_archive_suffixed : SourceInstance → Bool
unfolding lower
is_archive_suffixed i = any (λ suffix. ends_with suffix (lower i.root_t7_path)) archive_suffixes

-- `EXISTS` a running batch of the run
unfoldable pub running_batch_exists_for_classification_run : ℕ → List IngestionBatch → Bool
running_batch_exists_for_classification_run run batches =
    any (λ b. b.classification_run_id == run && is_running b.status) batches

-- `EXISTS` an attempt at the instance that succeeded
unfoldable pub already_processed : SourceInstance → List IngestionAttempt → Bool
already_processed i attempts =
    any (λ a. opt_eq a.source_instance_id (some i.id) && is_succeeded a.outcome) attempts

pub record InstanceClaim : Type 0 where
  pub worker_id : String
  pub lease_duration : ℕ
  pub classification_run_id : Option ℕ
  pub exclude_ids : List ℕ
  pub selecting_at : ℕ
  pub claiming_at : ℕ

-- The conditions on the run and its batch, where a run is given.
unfoldable pub is_in_run : Option ℕ → SourceInstance → Bool
is_in_run none i = true
is_in_run (some run) i = i.classification_run_id == run

unfoldable pub is_admitted : Option ℕ → List IngestionBatch → Bool
is_admitted none batches = true
is_admitted (some run) batches = running_batch_exists_for_classification_run run batches

unfoldable pub is_unclaimed : InstanceClaim → SourceInstance → Bool
is_unclaimed c i = is_free (c.selecting_at - c.lease_duration) i.claimed_by i.claimed_at

-- What both queues select by.
unfoldable pub is_open : InstanceClaim → Store → SourceInstance → Bool
is_open c s i =
    is_none i.member_path
    && (is_none i.content_identity_group_id
        && (is_unclaimed c i
            && (is_in_run c.classification_run_id i
                && (is_admitted c.classification_run_id s.batches
                    && not (any (λ id. i.id == id) c.exclude_ids)))))

unfoldable pub is_for_identity_resolution : InstanceClaim → Store → SourceInstance → Bool
is_for_identity_resolution c s i = is_open c s i && not (is_archive_suffixed i)

unfoldable pub is_for_archive_processing : InstanceClaim → Store → SourceInstance → Bool
is_for_archive_processing c s i =
    is_open c s i && (is_archive_suffixed i && not (already_processed i s.attempts))

abbrev pub taken : InstanceClaim → SourceInstance → SourceInstance
taken c i = record i {
  claimed_by = some c.worker_id;
  claimed_at = some c.claiming_at;
  claim_generation = i.claim_generation + 1;
}

-- The UPDATE of the candidate, with its own conditions.
unfoldable pub take_candidate : InstanceClaim → ℕ → Store → Option SourceInstance × Store
take_candidate c id s = elim (find id s.instances) [
  | none ↦ (none, s)
  | some i ↦
      if is_unclaimed c i && is_admitted c.classification_run_id s.batches
      then (
        find id (modify id (taken c) s.instances),
        record s { instances = modify id (taken c) s.instances },
      )
      else (none, s)
]

unfoldable pub claim_source_instance :
    (InstanceClaim → Store → SourceInstance → Bool)
    → (ℕ → Bool)
    → (Store → Store)
    → InstanceClaim
    → Store
    → Option SourceInstance × Store
claim_source_instance eligible locked between c s =
    elim (oldest (λ i. eligible c s i && not (locked i.id)) (λ i. i.created_at) s.instances) [
      | none ↦ (none, s)
      | some i ↦ take_candidate c i.id (between s)
    ]

unfoldable pub claim_source_instance_for_identity_resolution :
    (ℕ → Bool) → (Store → Store) → InstanceClaim → Store → Option SourceInstance × Store
claim_source_instance_for_identity_resolution = claim_source_instance is_for_identity_resolution

unfoldable pub claim_source_instance_for_archive_processing :
    (ℕ → Bool) → (Store → Store) → InstanceClaim → Store → Option SourceInstance × Store
claim_source_instance_for_archive_processing = claim_source_instance is_for_archive_processing

abbrev pub let_go : SourceInstance → SourceInstance
let_go i = record i { claimed_by = none; claimed_at = none }

unfoldable pub release_source_instance_claim : ℕ → ℕ → Store → Bool × Store
release_source_instance_claim id generation s = elim (find id s.instances) [
  | none ↦ (false, s)
  | some i ↦
      if i.claim_generation == generation
      then (true, record s { instances = modify id let_go s.instances })
      else (false, s)
]
