-- ===== src/Claims/Samples.antt =====
-- One batch, one group that holds five of its embeddings, and two files.
use ai_brain.Prelude.{
  ℕ, ◌≤◌, ◌≡◌, String, false, none, some, [], ◌∷◌, find, arith, ◌==◌, Bool-cases, inl, inr,
}
use mathlib.Core.Option.{some_inj}
use mathlib.Core.Path.{subst}
use ai_brain.Paths.{codes}
use ai_brain.Batch.Model.{IngestionBatch, running, BatchStatus, batch_keyed}
use ai_brain.Claims.Rows.{
  ContentIdentityGroup, extracted_content, sha256, chunked, SourceInstance, unresolved, group_keyed,
  instance_keyed,
}
use ai_brain.Claims.Groups.{Store, GroupClaim}
use ai_brain.Claims.Changes.{live}
use ai_brain.Claims.Bounds.{Within}

abbrev pub batch : BatchStatus → IngestionBatch
batch status = record {
  id = 4;
  terms = record {
    classification_run_id = 1;
    review_required = false;
    max_source_instances = 10;
    max_source_bytes = 1000;
    max_extracted_bytes = none;
    max_embeddings = 50;
    max_runtime_seconds = 60;
    eligible_source_count = 2;
    policy_filtered_count = 0;
    selectable_count = 2;
    source_instances_selected = 2;
    source_bytes_selected = 20;
    selection_fingerprint = "f";
    selection_policy_version = "1";
    ordering_version = "1";
  };
  status = status;
  stop_reason = none;
  stop_reason_detail = none;
  extracted_bytes_consumed = 0;
  embeddings_reserved = 10;
  monotonic_runtime_seconds_consumed = 0;
  created_at = 1;
  started_at = none;
  completed_at = none;
}

abbrev pub group : ContentIdentityGroup
group = record {
  id = 7;
  identity_kind = extracted_content;
  identity_algorithm = sha256;
  identity_hash = "h";
  pipeline_state = chunked;
  claimed_by = some "w1";
  claimed_at = some 100;
  claim_generation = 3;
  reserved_embeddings = some 5;
  reserved_embeddings_batch_id = some 4;
  created_at = 2;
}

abbrev pub file : ℕ → String → SourceInstance
file id path = record {
  id = id;
  classification_run_id = 1;
  content_identity_group_id = none;
  root_t7_path = codes path;
  member_path = none;
  evidence_snapshot = record {
    d0_declared_size_bytes = none;
    selection_policy_version = none;
    d1_duplicate_group_id = none;
  };
  source_category = none;
  workload_category = none;
  risk_tier_estimated = none;
  canonical_status = unresolved;
  canonical_status_reason = none;
  canonical_status_decided_by = none;
  canonical_status_decided_at = none;
  claimed_by = none;
  claimed_at = none;
  claim_generation = 0;
  created_at = id;
}

abbrev pub store : BatchStatus → Store
store status = record {
  groups = group ∷ [];
  instances = file 1 "/t/A.ZIP" ∷ file 2 "/t/b.txt" ∷ [];
  attempts = [];
  batches = batch status ∷ [];
}

abbrev pub group_claim : GroupClaim
group_claim = record {
  worker_id = "w2";
  eligible_pipeline_states = chunked ∷ [];
  lease_duration = 50;
  claiming_pipeline_state = none;
  selecting_at = 200;
  claiming_at = 201;
}

pub store-Within : Within (store running)
unfolding find
store-Within b x h = elim (Bool-cases (4 == b)) [
  | inl e ↦
      let same : batch running ≡ x = some_inj.0 (rw e at h) in
      subst
        (λ y.
          (live b (group ∷ []) ≤ y.embeddings_reserved)
          × (y.embeddings_reserved ≤ y.max_embeddings))
        same (rw e (omega arith, omega arith))
  | inr e ↦ let p = rw e at h in absurd cc
]
