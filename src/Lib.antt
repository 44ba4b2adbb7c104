-- ===== src/Lib.antt =====
-- A verification library for AI_Brain, a local assistant over a personal archive. It models the parts
-- of the backend that decide about irreversible or costly work: the deduplication pipeline, which
-- moves files, and the ingestion of files in batches. Paths below are from the repository's root.
--
-- The deduplication pipeline (backend/app/dedup/) is a chain of services over one database. A human
-- approves a review of duplicates (review_service.py, Dedup/Reviews.antt); a dry-run plan freezes what
-- is to be moved and what was observed (execution_plan_service.py, Dedup/Plans.antt); the plan is
-- authorized (authorization_service.py, Dedup/Authorizations.antt); an authorization is consumed by
-- one execution, whose outcomes are audited (execution_service.py, Dedup/Executions.antt); and the
-- executor moves files to quarantine and reports every outcome (executor.py, Dedup/Executor.antt, its
-- constructor in Dedup/Executor/Constructing.antt). An unknown outcome is reconciled by a human
-- (reconciliation_service.py, Dedup/Reconciliations.antt). The rows are in Dedup/Records.antt, each a
-- record with the columns that the services use. A table is the list of its rows; a row is found and
-- updated by its key (Prelude/Tables.antt).
--
-- A method is an action of Dedup/Exec.antt: from the database, the outside world and a count of
-- renames it gives a result or an error and the state after it, so what was committed before an error
-- stays. Each method of the source is a definition with its name, with its guards in the order of the
-- source; a long method is cut where it returns early, and each piece has a name (`attempt_action`
-- goes on with `locate_source`, `inspect_source`, `pin_source`, `move_source` and `verify_move`). The
-- operating system is the record `Os` of Dedup/Os.antt, a parameter: a call may answer anything, raise
-- `OSError`, and change the world in any way, so what other processes do between two calls is covered.
-- Nothing is assumed of it. Hashes are answers of it. Dedup/Changes.antt has the committed writes of
-- the whole pipeline as one step relation, with what was checked before each; Dedup/Pipeline.antt has
-- calls in any order.
--
-- Ingestion batches (backend/app/classification/batch_control_service.py and resource_guard.py over
-- backend/app/models/ingestion_batch.py) are in Batch/: the row in Batch/Model.antt, the guard in
-- Batch/Guard.antt, the service in Batch/Control.antt, with the conditional `UPDATE` as one step, and
-- in `resume` a function for what other sessions commit between its read and its `UPDATE`. Free disk
-- space and the reachability of Ollama are arguments. Clocks are arguments; seconds are counted in
-- ticks.
--
-- The files that a batch takes (backend/app/classification/policy_evaluator.py and
-- deterministic_selector.py) are chosen in Selection.antt, by the policy in Selection/Policy.antt;
-- Creation.antt has the creation of the batch from them (batch_creation_service.py), with one archive
-- of each group of duplicates (Creation/Deferral.antt); Creation/Ancestry.antt has the creation of one
-- instance with the links of its ancestry, and of a run (source_instance_service.py,
-- classification_run_service.py). The chunks of a text for embedding
-- (backend/app/embeddings/chunker.py) are in Chunking.antt.
--
-- Workers take their work by the claims of backend/app/classification/worker_claim_service.py. The
-- rows are in Claims/Rows.antt; Claims/Groups.antt has the claim of a content identity group and its
-- release, Claims/Reservations.antt the reservation of embeddings, Claims/Instances.antt the two
-- queues of files. A call is one transaction or two; Claims/Changes.antt has the transactions as a
-- step relation, so that sequences of steps are the interleavings of any workers, Claims/Meter.antt
-- the specification that they refine, and Claims/Costs.antt what each call spends. A call that would
-- break a check constraint ends in an integrity error. Locked rows are a predicate; what other
-- sessions commit between the SELECT and the UPDATE of a file's claim is a function.
--
-- Identity/ has the attempts, the groups of one content and the resolution of a file
-- (ingestion_attempt_service.py, content_identity_service.py, canonical_decision_service.py,
-- eligibility_service.py, workspace.py and identity_resolution_service.py beside it), and
-- Embedding.antt the last step of the pipeline (pipeline_embedding_service.py). Reading a file,
-- hashing, writing to the workspace and the embedding backend are arguments. Extraction.antt has what
-- an archive's extraction counts against its batch (archive_processing_service.py): admission, release
-- and correction. Reporting.antt counts what became of a batch's files (batch_report_service.py), and
-- completes a batch whose files are done (batch_completion_reconciliation_service.py).
--
-- Loops are over lists, but for the loop over the starts of chunks, whose fuel is the length of the
-- text; its theorem shows that this is enough. Paths are lists of parts over code points (Paths.antt),
-- with letters lowered in ASCII. Numbers are unbounded, as Python's are. Ids of new rows are one above
-- the greatest. Texts of messages, listings, JSON snapshots and the wording of failure reasons are
-- left out; a failure reason is the audit that it quotes. Inserts that race are not interleaved with
-- the check before them: the database's unique constraints refuse the second one, and the source turns
-- that into the error of the check. Not modelled: the creation of reviews, the extraction of archives
-- itself, the normalization of texts, the distributions of risk tiers in a report, the orchestration
-- of batches, duplicate detection, discovery, provenance and export, retrieval, memory, tools and
-- chat, the HTTP layer and the scripts.
pub mod Prelude
pub mod Paths
pub mod Batch
pub mod Claims
pub mod Creation
pub mod Dedup
pub mod Embedding
pub mod Extraction
pub mod Identity
pub mod Chunking
pub mod Reporting
pub mod Selection
