-- ===== src/Creation/Ancestry.antt =====
-- One instance with the ancestry of its file, from the file itself through archives to the member:
-- backend/app/classification/source_instance_service.py, and the runs that instances belong to:
-- classification_run_service.py beside it.
pub mod Shapes
mod Examples
use ai_brain.Prelude.{
  ℕ, suc, String, Bool, true, false, not, ◌&&◌, Option, none, some, List, [], ◌∷◌, ◌++◌, all,
  is_none, modify, next_id, if◌then◌else◌,
}
use ai_brain.Paths.{Text}
use ai_brain.Selection.Policy.{SourceCategory, WorkloadCategory, RiskTierEstimated}
use ai_brain.Claims.Rows.{SourceInstance, EvidenceSnapshot, unresolved, instance_keyed}
use ai_brain.Creation.{
  ClassificationRun, ProvenanceLinkKind, t7_file, archive_member, ProvenanceLink, run_keyed,
  link_keyed, Catalogue,
}

pub record ProvenanceStep : Type 0 where
  pub kind : ProvenanceLinkKind
  pub path : Text

-- The other arguments of a creation, and its reading of the clock.
pub record Observed : Type 0 where
  pub classification_run_id : ℕ
  pub root_t7_path : Text
  pub member_path : Option Text
  pub evidence_snapshot : EvidenceSnapshot
  pub source_category : Option SourceCategory
  pub workload_category : Option WorkloadCategory
  pub risk_tier_estimated : Option RiskTierEstimated
  pub now : ℕ

-- The id of the new instance, or the error by its cause.
pub data Registered : Type 0 where
  registered : ℕ → Registered
  empty_chain wrong_root wrong_step : Registered

abbrev pub is_file : ProvenanceLinkKind → Bool
is_file t7_file = true
is_file archive_member = false

abbrev pub observed_instance : Observed → ℕ → SourceInstance
observed_instance o id = record {
  id = id;
  classification_run_id = o.classification_run_id;
  content_identity_group_id = none;
  root_t7_path = o.root_t7_path;
  member_path = o.member_path;
  evidence_snapshot = o.evidence_snapshot;
  source_category = o.source_category;
  workload_category = o.workload_category;
  risk_tier_estimated = o.risk_tier_estimated;
  canonical_status = unresolved;
  canonical_status_reason = none;
  canonical_status_decided_by = none;
  canonical_status_decided_at = none;
  claimed_by = none;
  claimed_at = none;
  claim_generation = 0;
  created_at = o.now;
}

abbrev pub link_of : ℕ → Option ℕ → ℕ → ProvenanceStep → ℕ → ProvenanceLink
link_of instance_id parent_link_id sequence_index step id = record {
  id = id;
  source_instance_id = instance_id;
  parent_link_id = parent_link_id;
  sequence_index = sequence_index;
  kind = step.kind;
  path = step.path;
}

-- `for sequence_index, step in enumerate(chain)`
unfoldable pub add_links :
    ℕ → Option ℕ → ℕ → List ProvenanceStep → List ProvenanceLink → List ProvenanceLink
add_links instance_id parent k [] links = links
add_links instance_id parent k (step ∷ steps) links =
    let id = next_id links in
    add_links instance_id (some id) (suc k) steps
      (links ++ link_of instance_id parent k step id ∷ [])

unfoldable pub create_instance : Observed → List ProvenanceStep → Catalogue → Registered × Catalogue
create_instance o [] c = (empty_chain, c)
create_instance o (root ∷ steps) c =
    if not (is_file root.kind)
    then (wrong_root, c)
    else if not (all (λ step. not (is_file step.kind)) steps)
    then (wrong_step, c)
    else (
      registered (next_id c.tables.instances),
      record c {
        tables = record c.tables {
          instances = c.tables.instances ++ observed_instance o (next_id c.tables.instances) ∷ [];
        };
        links = add_links (next_id c.tables.instances) none 0 (root ∷ steps) c.links;
      },
    )

-- `start_run`; a run of no discovery run is refused.
unfoldable pub start_run :
    ℕ → String → Option ℕ → Option ℕ → Option ℕ → Catalogue → Option ClassificationRun × Catalogue
start_run now version d0 d1 d2 c =
    let run : ClassificationRun = record {
      id = next_id c.runs;
      classifier_version = version;
      d0_discovery_run_id = d0;
      d1_discovery_run_id = d1;
      d2_discovery_run_id = d2;
      started_at = now;
      completed_at = none;
    } in
    if is_none d0 && (is_none d1 && is_none d2)
    then (none, c)
    else (some run, record c { runs = c.runs ++ run ∷ [] })

unfoldable pub complete_run : ℕ → ℕ → Catalogue → Catalogue
complete_run now id c = record c {
  runs = modify id (λ r. record r { completed_at = some now }) c.runs;
}
