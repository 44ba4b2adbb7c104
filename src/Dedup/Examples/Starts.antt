-- ===== src/Dedup/Examples/Starts.antt =====
-- A start and a recovery on the small disk.
use ai_brain.Prelude.{find, refl, some, ◌≡◌, ◌∷◌, none, List, []}
use ai_brain.Dedup.Records.{DuplicateReview, exact, approved, review_keyed}
use ai_brain.Dedup.Pipeline.{Operation, perform_all, perform_all_decided}
use ai_brain.Dedup.Exec.{Sys}
use ai_brain.Dedup.Executions.{start_execution, recover_stale_execution}
use ai_brain.Dedup.Executions.Starting.{Started, start_execution-Started}
use ai_brain.Dedup.Executions.Recovering.{Appended, recover_stale_execution-Appended}
use ai_brain.Dedup.Examples.{database, state, executor}
use ai_brain.Dedup.Examples.Disk.{disk, Entry}

-- Before anything was executed.
abbrev unstarted : Sys (List Entry)
unstarted = record state { db = record database { executions = [] } }

start_execution-Started_example :
    Started disk 4 1 none unstarted (start_execution disk 4 1 none unstarted)
start_execution-Started_example = start_execution-Started disk 4 1 none unstarted

recover_stale_execution-Appended_example :
    Appended state.db.audits (recover_stale_execution disk 8 9 1 state).1.db.audits
recover_stale_execution-Appended_example = recover_stale_execution-Appended disk 8 9 1 state

abbrev the_review : DuplicateReview
the_review = record {
  id = 1;
  match_type = exact;
  status = approved;
  reviewer_decision = none;
  reviewed_at = some 1;
  human_selected_canonical_document_id = some "a";
}

review_found : find 1 state.db.reviews ≡ some the_review
unfolding find
review_found = refl

perform_all_decided_example :
    find 1 (perform_all disk executor (Operation.reject 9 1 none ∷ []) state).db.reviews
    ≡ some the_review
perform_all_decided_example =
    perform_all_decided disk executor (Operation.reject 9 1 none ∷ []) state 1 the_review
      review_found refl
