-- ===== src/Creation/Examples.antt =====
-- A batch from two texts and two copies of an archive, and the next batch from the same files.
use ai_brain.Prelude.{
  ◌≤◌, String, Option, none, some, List, [], ◌∷◌, map, sum_by, arith, Bool-cases, inl, inr,
}
use ai_brain.Paths.{codes, Text}
use ai_brain.Selection.Policy.{CandidateObservation, text_document_batch_policy}
use ai_brain.Creation.{
  Catalogue, Creation, Place, place_of, place_eq, already_materialized_paths, create_batch,
  eligible_candidates,
}
use ai_brain.Creation.Copies.{copies}
use ai_brain.Creation.Once.{Once, Linked, create_batch-Once}
use ai_brain.Creation.Apart.{archive_of, eligible_candidates-Apart}

abbrev observed : String → Option Text → CandidateObservation
observed path group = record {
  root_t7_path = codes path;
  member_path = none;
  declared_size_bytes = 10;
  d1_duplicate_group_id = group;
}

abbrev archives : List CandidateObservation
archives = observed "/b.zip" (some (codes "g")) ∷ observed "/a.zip" (some (codes "g")) ∷ []

abbrev creation : List CandidateObservation → Creation
creation candidates = record {
  discovery_run_id = 3;
  report_sha256 = "r";
  candidates = candidates;
  policy = text_document_batch_policy "1";
  max_source_instances = 1;
  max_source_bytes = 100;
  max_extracted_bytes = none;
  max_embeddings = 50;
  max_runtime_seconds = 60;
  classifier_version = "1";
  now = 5;
}

abbrev empty : Catalogue
empty = record {
  tables = record { groups = []; instances = []; attempts = []; batches = [] };
  runs = [];
  links = [];
}

abbrev fingerprint : Creation → String → List Place → String
fingerprint r version places = "f"

abbrev texts : List CandidateObservation
texts = observed "/a.txt" none ∷ []

empty-Once : Once empty
unfolding already_materialized_paths
empty-Once id k = omega arith

texts_distinct : (k : Place) → copies k (map place_of texts) ≤ 1
texts_distinct k = elim (Bool-cases (place_eq k (codes "/a.txt", none))) [
  | inl e ↦ rw e (omega arith)
  | inr e ↦ rw e (omega arith)
]

create_batch-Once_example :
    let c' = (create_batch fingerprint (creation texts) empty).1 in Once c' × Linked c'
create_batch-Once_example =
    create_batch-Once fingerprint (creation texts) empty tt empty-Once texts_distinct

eligible_candidates-Apart_example :
    sum_by (archive_of (codes "g")) (eligible_candidates (creation archives) empty) ≤ 1
eligible_candidates-Apart_example = eligible_candidates-Apart (creation archives) empty (codes "g")
