-- ===== src/Creation/Ancestry/Examples.antt =====
-- A text in an archive, and a run that becomes complete.
use ai_brain.Prelude.{◌≡◌, refl, none, some, [], ◌∷◌}
use ai_brain.Paths.{codes}
use ai_brain.Creation.{t7_file, archive_member, Catalogue}
use ai_brain.Creation.Ancestry.{ProvenanceStep, Observed, wrong_step, create_instance, start_run}
use ai_brain.Creation.Ancestry.Shapes.{Linked, create_instance-Linked}

abbrev empty : Catalogue
empty = record {
  tables = record { groups = []; instances = []; attempts = []; batches = [] };
  runs = [];
  links = [];
}

abbrev member : Observed
member = record {
  classification_run_id = 0;
  root_t7_path = codes "/t/A.ZIP";
  member_path = some (codes "b.txt");
  evidence_snapshot = record {
    d0_declared_size_bytes = some 9;
    selection_policy_version = none;
    d1_duplicate_group_id = none;
  };
  source_category = none;
  workload_category = none;
  risk_tier_estimated = none;
  now = 5;
}

abbrev file_step : ProvenanceStep
file_step = record { kind = t7_file; path = codes "/t/A.ZIP" }

abbrev member_step : ProvenanceStep
member_step = record { kind = archive_member; path = codes "b.txt" }

create_instance-Linked_example :
    Linked member
      (file_step ∷ member_step ∷ [])
      empty
      (create_instance member (file_step ∷ member_step ∷ []) empty)
create_instance-Linked_example = create_instance-Linked member (file_step ∷ member_step ∷ []) empty

-- A second file in the chain is refused.
refusing_test : create_instance member (file_step ∷ file_step ∷ []) empty ≡ (wrong_step, empty)
unfolding create_instance
refusing_test = refl

-- A run needs a discovery run.
starting_test : start_run 3 "v1" none none none empty ≡ (none, empty)
unfolding start_run
starting_test = refl
