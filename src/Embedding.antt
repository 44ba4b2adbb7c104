-- ===== src/Embedding.antt =====
-- The last step of the pipeline, over the tables of Claims:
-- backend/app/classification/pipeline_embedding_service.py. The embedding backend is an argument, and
-- so is the type of its vectors.
pub mod Accounting
pub mod Bounds
mod Examples
use ai_brain.Prelude.{
  ℕ, String, Bool, true, false, ◌&&◌, Option, none, some, List, [], ◌∷◌, map, is_none, is_empty,
  any, filter, length, leb, ◌==◌, opt_eq, text_eq, find_by, find, modify, oldest, if◌then◌else◌,
  Keyed,
}
use ai_brain.Batch.Model.{IngestionBatch, batch_keyed}
use ai_brain.Batch.Guard.{BatchResourceGuard}
use ai_brain.Claims.Rows.{
  ContentIdentityGroup, ContentPipelineState, chunked, embedded, ingested, failed, SourceInstance,
  group_keyed, embedding_stage, IngestionFailureCode, embedding_unavailable, succeeded,
  attempt_failed,
}
use ai_brain.Claims.Groups.{
  Store, GroupClaim, Outcome, returned, integrity_error, claim_content_identity_group,
  release_content_identity_group_claim,
}
use ai_brain.Claims.Reservations.{
  ReservationOutcome, is_running, reserve_embeddings, consume_embedding_reservation,
  release_embedding_reservation,
}
use ai_brain.Identity.Attempts.{Report, record_pipeline_attempt}

pub record PipelineDocument : Type 0 where
  pub id : String
  pub content_identity_group_id : Option ℕ

pub record DocumentChunk (V : Type 0) : Type 0 where
  pub id : ℕ
  pub document_id : String
  pub chunk_index : ℕ
  pub content : String
  pub embedding : Option V

instance abbrev pub chunk_keyed : {V : Type 0} → Keyed (DocumentChunk V)
chunk_keyed = record { key = λ c. c.id }

pub record Library (V : Type 0) : Type 0 where
  pub tables : Store
  pub documents : List PipelineDocument
  pub chunks : List (DocumentChunk V)

-- What the backend answers: vectors, or the text of its error.
pub data Embedded (V : Type 0) : Type 0 where
  vectors : List V → Embedded V
  embed_error : String → Embedded V

-- What surrounds a call: the backend, the disk probe, the answer of Ollama to the guard, the clock.
pub record Backend (V : Type 0) : Type 0 where
  pub embed : List String → Embedded V
  pub free_at : String → ℕ
  pub reachable : Bool
  pub now : ℕ

module _ {V : Type 0} where
  abbrev insert_by_index : DocumentChunk V → List (DocumentChunk V) → List (DocumentChunk V)
  insert_by_index c [] = c ∷ []
  insert_by_index c (d ∷ ds) =
      let rest = insert_by_index c ds in
      if leb c.chunk_index d.chunk_index then c ∷ d ∷ ds else d ∷ rest

  abbrev order_by_index : List (DocumentChunk V) → List (DocumentChunk V)
  order_by_index [] = []
  order_by_index (c ∷ cs) = insert_by_index c (order_by_index cs)

  -- The chunks of a document that have no embedding, in their order.
  unfoldable pub unembedded : String → List (DocumentChunk V) → List (DocumentChunk V)
  unembedded document_id chunks =
      order_by_index (filter (λ c. text_eq c.document_id document_id && is_none c.embedding) chunks)

  -- `for chunk, vector in zip(unembedded_chunks, vectors)`
  unfoldable pub write_vectors :
      List (DocumentChunk V) → List V → List (DocumentChunk V) → List (DocumentChunk V)
  write_vectors [] vs chunks = chunks
  write_vectors (c ∷ cs) [] chunks = chunks
  write_vectors (c ∷ cs) (v ∷ vs) chunks =
      write_vectors cs vs (modify c.id (λ d. record d { embedding = some v }) chunks)

-- `_resolve_owning_running_batch`: the first running batch whose run has an instance of the group.
unfoldable pub resolve_owning_running_batch : ℕ → Store → Option IngestionBatch
resolve_owning_running_batch group_id s =
    oldest
      (λ b.
        is_running b.status
        && any
            (λ i.
              i.classification_run_id == b.classification_run_id
              && opt_eq i.content_identity_group_id (some group_id))
            s.instances)
      (λ b. b.id) s.batches

abbrev eligible_claim_states : List ContentPipelineState
eligible_claim_states = chunked ∷ embedded ∷ []

-- The claim of `embed_next`, from its worker, lease and the two readings of the clock.
abbrev pub embedding_claim : String → ℕ → ℕ → ℕ → GroupClaim
embedding_claim worker lease selecting claiming = record {
  worker_id = worker;
  eligible_pipeline_states = eligible_claim_states;
  lease_duration = lease;
  claiming_pipeline_state = none;
  selecting_at = selecting;
  claiming_at = claiming;
}

module _ {V : Type 0} (w : Backend V) (worker : String) (g : ContentIdentityGroup) where
  abbrev pub attempted : Option String → Store → Store
  attempted none s =
      (record_pipeline_attempt g.id embedding_stage
        (record {
          worker_id = worker;
          outcome = succeeded;
          failure_code = none;
          failure_detail = none;
          retryable = none;
          attempted_at = w.now;
        })
        s).1
  attempted (some detail) s =
      (record_pipeline_attempt g.id embedding_stage
        (record {
          worker_id = worker;
          outcome = attempt_failed;
          failure_code = some embedding_unavailable;
          failure_detail = some detail;
          retryable = some true;
          attempted_at = w.now;
        })
        s).1

  -- `_succeed`
  unfoldable pub succeed : String → Bool → Library V → Library V
  succeed document_id reserved l =
      let s = attempted none l.tables in
      let final_state : ContentPipelineState =
        if is_empty (unembedded document_id l.chunks) then ingested else embedded in
      if reserved
      then record l {
        tables = (consume_embedding_reservation g.id g.claim_generation final_state s).1;
      }
      else record l {
        tables =
            (release_content_identity_group_claim g.id g.claim_generation (some final_state) s).1;
      }

  -- The claim is released to the failed state, after a reservation is given back.
  unfoldable pub fail_after : Outcome Bool × Store → Outcome Unit × Store
  fail_after (returned x, s) = (
    returned tt,
    (release_content_identity_group_claim g.id g.claim_generation (some failed) s).1,
  )
  fail_after (integrity_error, s) = (integrity_error, s)

  -- `_fail`
  unfoldable pub fail : String → Bool → Store → Outcome Unit × Store
  fail detail reserved s =
      if reserved
      then fail_after
          (release_embedding_reservation g.id g.claim_generation (attempted (some detail) s))
      else fail_after (returned true, attempted (some detail) s)

  abbrev not_deferred : Outcome Unit → Outcome Bool
  not_deferred (returned x) = returned false
  not_deferred integrity_error = integrity_error

  unfoldable pub run_embedding :
      String → List (DocumentChunk V) → Bool → Library V → Outcome Bool × Library V
  run_embedding document_id todo reserved l = elim (w.embed (map (λ c. c.content) todo)) [
    | vectors vs ↦ (
      returned false,
      succeed document_id reserved (record l { chunks = write_vectors todo vs l.chunks }),
    )
    | embed_error detail ↦
        let (r, s) = fail detail reserved l.tables in (not_deferred r, record l { tables = s })
  ]

  -- What follows the reservation.
  unfoldable pub after_reservation :
      String
      → List (DocumentChunk V)
      → Library V
      → Outcome ReservationOutcome × Store
      → Outcome Bool × Library V
  after_reservation document_id todo l (integrity_error, s) =
      (integrity_error, record l { tables = s })
  after_reservation document_id todo l (returned o, s) =
      if o.reserved
      then run_embedding document_id todo true (record l { tables = s })
      else (returned true, record l { tables = s })

  -- `_embed_claimed_group`: whether the group was deferred.
  unfoldable pub embed_claimed_group :
      Option BatchResourceGuard → Library V → Outcome Bool × Library V
  embed_claimed_group guard l =
      elim (find_by (λ d. opt_eq d.content_identity_group_id (some g.id)) l.documents) [
        | none ↦
            let (r, s) = fail "no Document" false l.tables in
            (not_deferred r, record l { tables = s })
        | some d ↦
            let todo = unembedded d.id l.chunks in
            if is_empty todo
            then (returned false, succeed d.id false l)
            else elim (resolve_owning_running_batch g.id l.tables) [
              | none ↦ run_embedding d.id todo false l
              | some b ↦
                  after_reservation d.id todo l
                    (reserve_embeddings w.free_at w.reachable g.id g.claim_generation b.id
                      (length todo) guard l.tables).0
            ]
      ]

-- After a raise, the claim is released and the error raised again.
unfoldable pub settle_group :
    {V : Type 0}
    → ContentIdentityGroup
    → Outcome Bool × Library V
    → Outcome (Option ContentIdentityGroup) × Library V
settle_group g (integrity_error, l) = (
  integrity_error,
  record l {
    tables = (release_content_identity_group_claim g.id g.claim_generation none l.tables).1;
  },
)
settle_group g (returned true, l) = (returned none, l)
settle_group g (returned false, l) = (returned (find g.id l.tables.groups), l)

unfoldable pub embed_taken :
    {V : Type 0}
    → Backend V
    → String
    → Option BatchResourceGuard
    → Library V
    → Outcome (Option ContentIdentityGroup) × Store
    → Outcome (Option ContentIdentityGroup) × Library V
embed_taken w worker guard l (integrity_error, s) = (integrity_error, record l { tables = s })
embed_taken w worker guard l (returned none, s) = (returned none, record l { tables = s })
embed_taken w worker guard l (returned (some g), s) =
    settle_group g (embed_claimed_group w worker g guard (record l { tables = s }))

unfoldable pub embed_next :
    {V : Type 0}
    → Backend V
    → (ℕ → Bool)
    → String
    → ℕ
    → ℕ
    → ℕ
    → Option BatchResourceGuard
    → Library V
    → Outcome (Option ContentIdentityGroup) × Library V
embed_next w locked worker lease selecting claiming guard l =
    embed_taken w worker guard l (
      claim_content_identity_group locked (embedding_claim worker lease selecting claiming)
        l.tables)
