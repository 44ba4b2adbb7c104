-- ===== src/Creation.antt =====
-- The creation of a batch from the files of a discovery run:
-- backend/app/classification/batch_creation_service.py, with the deferral of duplicate archives from
-- deterministic_selector.py. The advisory lock serializes the creations of one discovery run, so
-- that a creation is one step here; the fingerprint is a hash of the selection, and an argument.
pub mod Deferral
pub mod Copies
pub mod Once
pub mod Apart
pub mod Ancestry
mod Examples
use ai_brain.Prelude.{
  ℕ, String, Bool, true, false, not, ◌&&◌, ◌||◌, Option, none, some, List, [], ◌∷◌, ◌++◌, map,
  filter, is_empty, any, length, find, next_id, opt_eq, if◌then◌else◌, Keyed,
}
use ai_brain.Paths.{Text, text_beq}
use ai_brain.Batch.Model.{IngestionBatch, planned, batch_keyed}
use ai_brain.Claims.Rows.{SourceInstance, unresolved, instance_keyed}
use ai_brain.Claims.Groups.{Store}
use ai_brain.Selection.{SelectionEnvelope, SelectionResult, select}
use ai_brain.Selection.Policy.{
  CandidateObservation, ClassifiedCandidate, BatchClassPolicy, classify,
}
use ai_brain.Creation.Deferral.{select_archive_duplicate_deferrals}

pub record ClassificationRun : Type 0 where
  pub id : ℕ
  pub classifier_version : String
  pub d0_discovery_run_id : Option ℕ
  pub d1_discovery_run_id : Option ℕ
  pub d2_discovery_run_id : Option ℕ
  pub started_at : ℕ
  pub completed_at : Option ℕ

pub data ProvenanceLinkKind : Type 0 where
  t7_file archive_member : ProvenanceLinkKind

pub record ProvenanceLink : Type 0 where
  pub id : ℕ
  pub source_instance_id : ℕ
  pub parent_link_id : Option ℕ
  pub sequence_index : ℕ
  pub kind : ProvenanceLinkKind
  pub path : Text

instance abbrev pub run_keyed : Keyed ClassificationRun
run_keyed = record { key = λ r. r.id }

instance abbrev pub link_keyed : Keyed ProvenanceLink
link_keyed = record { key = λ l. l.id }

pub record Catalogue : Type 0 where
  pub tables : Store
  pub runs : List ClassificationRun
  pub links : List ProvenanceLink

-- A file, or a member of an archive.
abbrev pub Place : Type 0
Place = Text × Option Text

abbrev pub member_eq : Option Text → Option Text → Bool
member_eq none none = true
member_eq (some a) (some b) = text_beq a b
member_eq _ _ = false

abbrev pub place_eq : Place → Place → Bool
place_eq (p, m) (q, n) = text_beq p q && member_eq m n

abbrev pub place_of : CandidateObservation → Place
place_of o = (o.root_t7_path, o.member_path)

abbrev pub place_of_instance : SourceInstance → Place
place_of_instance i = (i.root_t7_path, i.member_path)

abbrev pub is_of_discovery : ℕ → Option ClassificationRun → Bool
is_of_discovery id none = false
is_of_discovery id (some r) =
    opt_eq r.d0_discovery_run_id (some id)
    || (opt_eq r.d1_discovery_run_id (some id) || opt_eq r.d2_discovery_run_id (some id))

-- `_already_materialized_paths`: the places of the instances whose run is of the discovery run.
unfoldable pub already_materialized_paths : ℕ → Catalogue → List Place
already_materialized_paths id c =
    map place_of_instance
      (filter (λ i. is_of_discovery id (find i.classification_run_id c.runs)) c.tables.instances)

-- The arguments of a creation, and its reading of the clock.
pub record Creation : Type 0 where
  pub discovery_run_id : ℕ
  pub report_sha256 : String
  pub candidates : List CandidateObservation
  pub policy : BatchClassPolicy
  pub max_source_instances : ℕ
  pub max_source_bytes : ℕ
  pub max_extracted_bytes : Option ℕ
  pub max_embeddings : ℕ
  pub max_runtime_seconds : ℕ
  pub classifier_version : String
  pub now : ℕ

abbrev pub new_instance : Creation → ℕ → ClassifiedCandidate → ℕ → SourceInstance
new_instance r run_id c id = record {
  id = id;
  classification_run_id = run_id;
  content_identity_group_id = none;
  root_t7_path = c.observation.root_t7_path;
  member_path = c.observation.member_path;
  evidence_snapshot = record {
    d0_declared_size_bytes = some c.observation.declared_size_bytes;
    selection_policy_version = some r.policy.selection_policy_version;
    d1_duplicate_group_id = c.observation.d1_duplicate_group_id;
  };
  source_category = some c.source_category;
  workload_category = some c.workload_category;
  risk_tier_estimated = some c.risk_tier_estimated;
  canonical_status = unresolved;
  canonical_status_reason = none;
  canonical_status_decided_by = none;
  canonical_status_decided_at = none;
  claimed_by = none;
  claimed_at = none;
  claim_generation = 0;
  created_at = r.now;
}

abbrev root_link : ℕ → ClassifiedCandidate → ℕ → ProvenanceLink
root_link instance_id c id = record {
  id = id;
  source_instance_id = instance_id;
  parent_link_id = none;
  sequence_index = 0;
  kind = t7_file;
  path = c.observation.root_t7_path;
}

-- `for candidate in result.selected`: an instance and its root link each.
unfoldable pub materialize : Creation → ℕ → List ClassifiedCandidate → Catalogue → Catalogue
materialize r run_id [] c = c
materialize r run_id (x ∷ xs) c =
    let id = next_id c.tables.instances in
    materialize r run_id xs (record c {
      tables = record c.tables {
        instances = c.tables.instances ++ new_instance r run_id x id ∷ [];
      };
      links = c.links ++ root_link id x (next_id c.links) ∷ [];
    })

ordering_version : String
ordering_version = "lexicographic-path-v1"

-- The candidates that are not materialized and not deferred, classified.
unfoldable pub eligible_candidates : Creation → Catalogue → List ClassifiedCandidate
unfolding already_materialized_paths
eligible_candidates r c =
    let already = already_materialized_paths r.discovery_run_id c in
    let classified =
      map classify (filter (λ o. not (any (place_eq (place_of o)) already)) r.candidates) in
    let deferred = select_archive_duplicate_deferrals classified in
    filter (λ x. not (any (text_beq x.observation.root_t7_path) deferred)) classified

unfoldable pub selection : Creation → Catalogue → SelectionResult
selection r c = select (eligible_candidates r c) r.policy (record {
  max_source_instances = r.max_source_instances;
  max_source_bytes = r.max_source_bytes;
})

abbrev pub new_run : Creation → ℕ → ClassificationRun
new_run r id = record {
  id = id;
  classifier_version = r.classifier_version;
  d0_discovery_run_id = some r.discovery_run_id;
  d1_discovery_run_id = none;
  d2_discovery_run_id = none;
  started_at = r.now;
  completed_at = none;
}

new_batch :
    (Creation → String → List Place → String) → Creation → SelectionResult → ℕ → ℕ → IngestionBatch
unfolding ordering_version
new_batch fingerprint r result run_id id = record {
  id = id;
  terms = record {
    classification_run_id = run_id;
    review_required = false;
    max_source_instances = r.max_source_instances;
    max_source_bytes = r.max_source_bytes;
    max_extracted_bytes = r.max_extracted_bytes;
    max_embeddings = r.max_embeddings;
    max_runtime_seconds = r.max_runtime_seconds;
    eligible_source_count = result.eligible_count;
    policy_filtered_count = result.policy_filtered_count;
    selectable_count = result.selectable_count;
    source_instances_selected = length result.selected;
    source_bytes_selected = result.source_bytes_selected;
    selection_fingerprint =
        fingerprint r ordering_version (map (λ x. place_of x.observation) result.selected);
    selection_policy_version = r.policy.selection_policy_version;
    ordering_version = ordering_version;
  };
  status = planned;
  stop_reason = none;
  stop_reason_detail = none;
  extracted_bytes_consumed = 0;
  embeddings_reserved = 0;
  monotonic_runtime_seconds_consumed = 0;
  created_at = r.now;
  started_at = none;
  completed_at = none;
}

unfoldable pub create_batch :
    (Creation → String → List Place → String)
    → Creation
    → Catalogue
    → Option IngestionBatch × Catalogue
unfolding new_batch
create_batch fingerprint r c =
    let result = selection r c in
    if is_empty result.selected
    then (none, c)
    else let run_id = next_id c.runs in
      let c' =
        materialize r run_id result.selected
          (record c { runs = c.runs ++ new_run r run_id ∷ [] }) in
      let batch = new_batch fingerprint r result run_id (next_id c'.tables.batches) in
      (
        some batch,
        record c' { tables = record c'.tables { batches = c'.tables.batches ++ batch ∷ [] } },
      )
