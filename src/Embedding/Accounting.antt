-- ===== src/Embedding/Accounting.antt =====
-- Embeddings are written only against the count of a batch, where a running batch owns the group.
use ai_brain.Prelude.{
  ℕ, ◌≡◌, ◌⊎◌, refl, ap, ◌∙◌, String, Bool, true, false, Option, none, some, List, map, find,
  find_by, modify, is_empty, length, Option-cases, Bool-cases, inl, inr, arith, ◌==◌, opt_eq,
  oldest-All, Distinct, Distinct-find,
}
use ai_brain.Batch.Model.{IngestionBatch, batch_keyed}
use ai_brain.Batch.Guard.{BatchResourceGuard, check_before_expensive_operation, embedding}
use ai_brain.Claims.Rows.{
  ContentIdentityGroup, ContentPipelineState, IngestionAttemptStage, failed, group_keyed,
}
use ai_brain.Claims.Groups.{
  Store, Outcome, returned, integrity_error, row_at, release_content_identity_group_claim,
}
use ai_brain.Claims.Reservations.{
  ReservationOutcome, has_room, credited, reserve_rows, reserve_embeddings,
  consume_embedding_reservation, release_embedding_reservation,
}
use ai_brain.Claims.Changes.{Tier-cases}
use ai_brain.Claims.Costs.{is_reserved}
use ai_brain.Claims.Returning.{Placed, reserve_rows-Placed, given_back}
use ai_brain.Identity.Attempts.{Report, record_pipeline_attempt}
use ai_brain.Embedding.{
  PipelineDocument, DocumentChunk, Library, Backend, Embedded, vectors, embed_error, unembedded,
  write_vectors, resolve_owning_running_batch, attempted, succeed, fail, fail_after, run_embedding,
  after_reservation, embed_claimed_group,
}

release-batches :
    (id generation : ℕ) (state : Option ContentPipelineState) (s : Store)
    → (release_content_identity_group_claim id generation state s).1.batches ≡ s.batches
unfolding release_content_identity_group_claim
release-batches id generation state s = elim (Option-cases (row_at id generation s.groups)) [
  | inl o ↦ rw (release_content_identity_group_claim, o) refl
  | inr (g, o) ↦ rw (release_content_identity_group_claim, o) refl
]

consume-batches :
    (id generation : ℕ) (state : ContentPipelineState) (s : Store)
    → (consume_embedding_reservation id generation state s).1.batches ≡ s.batches
unfolding consume_embedding_reservation
consume-batches id generation state s = elim (Option-cases (row_at id generation s.groups)) [
  | inl o ↦ rw (consume_embedding_reservation, o) refl
  | inr (g, o) ↦ elim (Option-cases g.reserved_embeddings) [
    | inl q ↦ rw (consume_embedding_reservation, o, q) refl
    | inr (n, q) ↦
        rw (consume_embedding_reservation, o, q) (release-batches id generation (some state) _)
  ]
]

record-rest :
    (id : ℕ) (stage : IngestionAttemptStage) (r : Report) (s : Store)
    → let s' = (record_pipeline_attempt id stage r s).1 in
      (s'.batches ≡ s.batches) × (s'.groups ≡ s.groups)
unfolding record_pipeline_attempt
record-rest id stage r s = ground arith

-- A reservation that is refused leaves the batches as they are; one that is not refused is placed.
Reserved : ℕ → ℕ → ℕ → IngestionBatch → Store → Outcome ReservationOutcome × Store → Type 0
Reserved id generation n b s r =
    ((is_reserved r.0 ≡ false) × (r.1.batches ≡ s.batches))
    ⊎ ((is_reserved r.0 ≡ true) × Placed id generation n b s r.1)

reserve_rows-Reserved :
    (id generation n : ℕ) (b : IngestionBatch) (s : Store)
    → Reserved id generation n b s (reserve_rows id generation b n s)
unfolding Reserved reserve_rows
reserve_rows-Reserved id generation n b s =
    elim (Bool-cases (is_reserved (reserve_rows id generation b n s).0)) [
      | inl e ↦ inr (e, reserve_rows-Placed id generation n b s e)
      | inr e ↦ elim (Option-cases (row_at id generation s.groups)) [
        | inl o ↦ inl (e, rw (reserve_rows, o) (release-batches id generation none s))
        | inr (g, o) ↦ elim (Bool-cases (n == 0)) [
          | inl z ↦ inl (e, rw (reserve_rows, o, z) refl)
          | inr z ↦ elim (Bool-cases (has_room n b)) [
            | inl r ↦ let q = rw (reserve_rows, o, z, r) at e in absurd cc
            | inr r ↦ inl (e, rw (reserve_rows, o, z, r) (release-batches id generation none s))
          ]
        ]
      ]
    ]

reserve_embeddings-Reserved :
    (free_at : String → ℕ) (reachable : Bool) (id generation n : ℕ) (b : IngestionBatch)
    (guard : Option BatchResourceGuard) (s : Store)
    → find b.id s.batches ≡ some b
    → Reserved id generation n b s
        (reserve_embeddings free_at reachable id generation b.id n guard s).0
unfolding Reserved reserve_embeddings
reserve_embeddings-Reserved free_at reachable id generation n b guard s f =
    let rows = reserve_rows-Reserved id generation n b s in
    let away = release-batches id generation none s in
    elim (Option-cases guard) [
      | inl q ↦ rw (reserve_embeddings, f, q) rows
      | inr (g, q) ↦
          elim (Tier-cases
            (check_before_expensive_operation free_at reachable embedding g).0.tier) [
              | inl t ↦ rw (reserve_embeddings, f, q, t) rows
              | inr (inl t) ↦ rw (reserve_embeddings, f, q, t) (inl (refl, away))
              | inr (inr t) ↦ rw (reserve_embeddings, f, q, t) (inl (refl, away))
            ]
    ]

-- What a step does, by the outcome of its reservation and the answer of the backend: only a step that is
-- reserved for and answered with vectors writes them, counted against the batch, which had room.
pub data Accounted {V : Type 0} (w : Backend V) (reservation : Outcome ReservationOutcome)
    (b : IngestionBatch) (todo : List (DocumentChunk V)) (l : Library V)
    (out : Outcome Bool × Library V) : Type 0 where
  refused :
      is_reserved reservation ≡ false
      → (out.0 ≡ returned false → ⊥)
      → out.1.chunks ≡ l.chunks
      → out.1.tables.batches ≡ l.tables.batches
      → Accounted w reservation b todo l out
  unpaid :
      (detail : String)
      → is_reserved reservation ≡ true
      → w.embed (map (λ c. c.content) todo) ≡ embed_error detail
      → out.1.chunks ≡ l.chunks
      → out.1.tables.batches ≡ l.tables.batches
      → Accounted w reservation b todo l out
  paid :
      (vs : List V)
      → is_reserved reservation ≡ true
      → w.embed (map (λ c. c.content) todo) ≡ vectors vs
      → out.0 ≡ returned false
      → out.1.chunks ≡ write_vectors todo vs l.chunks
      → has_room (length todo) b ≡ true
      → out.1.tables.batches ≡ modify b.id (credited (length todo)) l.tables.batches
      → Accounted w reservation b todo l out

pub Embedded-cases :
    {V : Type 0} (r : Embedded V)
    → ((vs : List V) × (r ≡ vectors vs)) ⊎ ((detail : String) × (r ≡ embed_error detail))
Embedded-cases (vectors vs) = inl (vs, refl)
Embedded-cases (embed_error detail) = inr (detail, refl)

module _ {V : Type 0} (w : Backend V) (worker : String) (g : ContentIdentityGroup) where
  fail_after-batches :
      (r : Outcome Bool × Store) → (fail_after w worker g r).1.batches ≡ r.1.batches
  unfolding fail_after
  fail_after-batches (returned x, s) = release-batches g.id g.claim_generation (some failed) s
  fail_after-batches (integrity_error, s) = refl

  -- After a failure of the backend, the reservation is returned to the batch.
  fail-batches :
      (detail : String) (n : ℕ) (b : IngestionBatch) (s s' : Store)
      → find b.id s.batches ≡ some b
      → Placed g.id g.claim_generation n b s s'
      → (fail w worker g detail true s').1.batches ≡ s.batches
  unfolding fail record_pipeline_attempt
  fail-batches detail n b s s' f p =
      let recorded = attempted w worker g (some detail) in
      let give_back : Store → Outcome Bool × Store =
        λ t. release_embedding_reservation g.id g.claim_generation (recorded t) in
      fail_after-batches (give_back s')
      ∙ ap (λ t. (give_back t).1.batches) p.result
      ∙ ap (λ r. r.1.batches) (given_back g.id g.claim_generation n b p.group (recorded s) f p.at)

  run_embedding-Accounted :
      (document_id : String) (todo : List (DocumentChunk V)) (b : IngestionBatch) (l : Library V)
      (o : Outcome ReservationOutcome) (s' : Store)
      → is_reserved o ≡ true
      → find b.id l.tables.batches ≡ some b
      → Placed g.id g.claim_generation (length todo) b l.tables s'
      → Accounted w o b todo l
          (run_embedding w worker g document_id todo true (record l { tables = s' }))
  unfolding run_embedding succeed record_pipeline_attempt
  run_embedding-Accounted document_id todo b l o s' y f p =
      elim (Embedded-cases (w.embed (map (λ c. c.content) todo))) [
        | inl (vs, e) ↦
            rw (run_embedding, e)
              (paid vs y e refl refl p.room (
                consume-batches g.id g.claim_generation _ (attempted w worker g none s')
                ∙ ap (λ t. t.batches) p.result))
        | inr (detail, e) ↦
            rw (run_embedding, e)
              (unpaid detail y e refl (fail-batches detail (length todo) b l.tables s' f p))
      ]

  after_reservation-Accounted :
      (document_id : String) (todo : List (DocumentChunk V)) (b : IngestionBatch) (l : Library V)
      (r : Outcome ReservationOutcome × Store)
      → find b.id l.tables.batches ≡ some b
      → Reserved g.id g.claim_generation (length todo) b l.tables r
      → Accounted w r.0 b todo l (after_reservation w worker g document_id todo l r)
  unfolding after_reservation Reserved
  after_reservation-Accounted document_id todo b l (integrity_error, s) f (inl (e, q)) =
      refused refl (λ h. cc) refl q
  after_reservation-Accounted document_id todo b l (integrity_error, s) f (inr (e, p)) = absurd cc
  after_reservation-Accounted document_id todo b l (returned o, s) f (inl (e, q)) =
      rw e (refused refl (λ h. cc) refl q)
  after_reservation-Accounted document_id todo b l (returned o, s) f (inr (e, p)) =
      rw e (run_embedding-Accounted document_id todo b l _ s refl f p)

  -- When a running batch owns a group that has a document with chunks to embed, and the batches' keys are
  -- distinct, then: if the reservation is refused or raises, the call does not return as done, and the
  -- chunks and every batch are as they were; if it is granted and the backend fails, the chunks and every
  -- batch are as they were; and if the backend answers with vectors, they are written to the chunks in
  -- order, the number of chunks is counted against that batch, which had room, and no other batch changes.
  pub embed_claimed_group-Accounted :
      (guard : Option BatchResourceGuard) (l : Library V) (d : PipelineDocument)
      (b : IngestionBatch)
      → Distinct l.tables.batches
      → find_by (λ d. opt_eq d.content_identity_group_id (some g.id)) l.documents ≡ some d
      → is_empty (unembedded d.id l.chunks) ≡ false
      → resolve_owning_running_batch g.id l.tables ≡ some b
      → Accounted w
          (reserve_embeddings w.free_at w.reachable g.id g.claim_generation b.id
            (length (unembedded d.id l.chunks))
            guard
            l.tables).0.0
          b
          (unembedded d.id l.chunks)
          l
          (embed_claimed_group w worker g guard l)
  unfolding embed_claimed_group resolve_owning_running_batch
  embed_claimed_group-Accounted guard l d b u f e o =
      let at =
        oldest-All _ _ (λ x. find x.id l.tables.batches ≡ some x) b l.tables.batches o
          (Distinct-find l.tables.batches u) in
      rw (embed_claimed_group, f, e, resolve_owning_running_batch, o)
        (after_reservation-Accounted d.id (unembedded d.id l.chunks) b l _ at (
          reserve_embeddings-Reserved w.free_at w.reachable g.id g.claim_generation
            (length (unembedded d.id l.chunks)) b guard l.tables at))
