-- ===== src/Identity/Examples.antt =====
-- The second sample file is taken, read, hashed and identified.
use ai_brain.Prelude.{◌≡◌, refl, true, false, some, [], ◌∷◌, find, modify, oldest}
use ai_brain.Paths.{lower}
use ai_brain.Batch.Model.{running}
use ai_brain.Claims.Rows.{instance_keyed, group_keyed}
use ai_brain.Claims.Groups.{Store}
use ai_brain.Claims.Instances.{
  InstanceClaim, claim_source_instance_for_identity_resolution, claim_source_instance,
  take_candidate, taken, is_for_identity_resolution, is_open, is_unclaimed, is_in_run, is_admitted,
  is_archive_suffixed, running_batch_exists_for_classification_run,
}
use ai_brain.Claims.Samples.{store, file}
use ai_brain.Identity.Resolution.{Surroundings, content, resolve_next}
use ai_brain.Identity.Keeping.{Kept, Kept-refl, resolve_next-Kept}
use ai_brain.Identity.Settling.{Freed, RecordedIf, resolve_next-Freed}

abbrev surroundings : Surroundings
surroundings = record {
  read_bytes = λ path. content "text";
  sha256_hex = λ bytes. "digest";
  write_workspace_content = λ id bytes. true;
  now = 300;
  before_claiming = λ s. s;
  before_inserting = λ s. s;
}

abbrev file_claim : InstanceClaim
file_claim = record {
  worker_id = "w1";
  lease_duration = 50;
  classification_run_id = some 1;
  exclude_ids = [];
  selecting_at = 200;
  claiming_at = 201;
}

resolve_next-Kept_example :
    Kept (store running) (resolve_next surroundings (λ id. false) file_claim (store running)).1
resolve_next-Kept_example =
    resolve_next-Kept surroundings (λ id. false) file_claim (store running) Kept-refl Kept-refl

abbrev after_claim : Store
after_claim =
    let s = store running in
    record s { instances = file 1 "/t/A.ZIP" ∷ taken file_claim (file 2 "/t/b.txt") ∷ [] }

second_taken :
    claim_source_instance_for_identity_resolution (λ id. false) (λ s. s) file_claim (store running)
    ≡ (some (taken file_claim (file 2 "/t/b.txt")), after_claim)
unfolding find modify oldest lower claim_source_instance_for_identity_resolution
    claim_source_instance take_candidate is_for_identity_resolution is_open is_unclaimed is_in_run
    is_admitted is_archive_suffixed running_batch_exists_for_classification_run
second_taken = refl

resolve_next-Freed_example :
    let r = resolve_next surroundings (λ id. false) file_claim (store running) in
    Freed (taken file_claim (file 2 "/t/b.txt")) r.1
    × RecordedIf (taken file_claim (file 2 "/t/b.txt")) r.0 r.1
resolve_next-Freed_example =
    resolve_next-Freed surroundings (λ id. false) file_claim (taken file_claim (file 2 "/t/b.txt"))
      (store running) after_claim second_taken
