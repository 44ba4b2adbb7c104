-- ===== src/Embedding/Bounds.antt =====
-- A step of the pipeline is a sequence of the transactions of Claims.
use ai_brain.Prelude.{
  ℕ, refl, String, Bool, true, false, Option, none, some, List, find_by, is_empty, Option-cases,
  Bool-cases, inl, inr, opt_eq, Distinct, map,
}
use ai_brain.Batch.Guard.{BatchResourceGuard}
use ai_brain.Claims.Rows.{ContentIdentityGroup, IngestionAttemptStage, failed, group_keyed}
use ai_brain.Claims.Groups.{Store, Outcome, returned, integrity_error}
use ai_brain.Claims.Reservations.{ReservationOutcome}
use ai_brain.Claims.Changes.{Changes, others, done, one, append}
use ai_brain.Claims.Costs.{
  claim_content_identity_group-Costs, release_content_identity_group_claim-Costs,
  reserve_embeddings-Costs, consume_embedding_reservation-Costs,
  release_embedding_reservation-Costs,
}
use ai_brain.Claims.Bounds.{Within, Changes-Within}
use ai_brain.Identity.Attempts.{
  Report, record_pipeline_attempt, has_failure_fields, is_identity_stage,
}
use ai_brain.Embedding.{
  DocumentChunk, Library, Backend, unembedded, resolve_owning_running_batch, embedding_claim,
  attempted, succeed, fail, fail_after, run_embedding, after_reservation, embed_claimed_group,
  settle_group, embed_taken, embed_next,
}
use ai_brain.Embedding.Accounting.{Embedded-cases}

record-Changes :
    (id : ℕ) (stage : IngestionAttemptStage) (r : Report) (s : Store)
    → Changes s (record_pipeline_attempt id stage r s).1
unfolding record_pipeline_attempt
record-Changes id stage r s = elim (Bool-cases (is_identity_stage stage)) [
  | inl d ↦ rw d (done s)
  | inr d ↦
      elim (Bool-cases (has_failure_fields r.outcome r.failure_code r.failure_detail r.retryable)) [
        | inl e ↦ rw (d, e) (one (others _ refl (λ k x q. q) (λ k q. q)))
        | inr e ↦ rw (d, e) (done s)
      ]
]

module _ {V : Type 0} (w : Backend V) (worker : String) (g : ContentIdentityGroup) where
  attempted-Changes :
      (detail : Option String) (s : Store) → Changes s (attempted w worker g detail s)
  attempted-Changes none s = record-Changes g.id _ _ s
  attempted-Changes (some detail) s = record-Changes g.id _ _ s

  succeed-Changes :
      (document_id : String) (reserved : Bool) (l : Library V)
      → Changes l.tables (succeed w worker g document_id reserved l).tables
  unfolding succeed
  succeed-Changes document_id true l =
      append (attempted-Changes none l.tables)
        (consume_embedding_reservation-Costs g.id g.claim_generation _ _).0
  succeed-Changes document_id false l =
      append (attempted-Changes none l.tables)
        (release_content_identity_group_claim-Costs g.id g.claim_generation _ _).0

  fail_after-Changes : (r : Outcome Bool × Store) → Changes r.1 (fail_after w worker g r).1
  unfolding fail_after
  fail_after-Changes (returned x, s) =
      (release_content_identity_group_claim-Costs g.id g.claim_generation (some failed) s).0
  fail_after-Changes (integrity_error, s) = done s

  fail-Changes :
      (detail : String) (reserved : Bool) (s : Store)
      → Changes s (fail w worker g detail reserved s).1
  unfolding fail
  fail-Changes detail true s = append (attempted-Changes (some detail) s) (
      append (release_embedding_reservation-Costs g.id g.claim_generation _).0
        (fail_after-Changes _))
  fail-Changes detail false s =
      append (attempted-Changes (some detail) s) (fail_after-Changes (returned true, _))

  run_embedding-Changes :
      (document_id : String) (todo : List (DocumentChunk V)) (reserved : Bool) (l : Library V)
      → Changes l.tables (run_embedding w worker g document_id todo reserved l).1.tables
  unfolding run_embedding
  run_embedding-Changes document_id todo reserved l =
      elim (Embedded-cases (w.embed (map (λ c. c.content) todo))) [
        | inl (vs, e) ↦ rw (run_embedding, e) (succeed-Changes document_id reserved _)
        | inr (detail, e) ↦ rw (run_embedding, e) (fail-Changes detail reserved l.tables)
      ]

  after_reservation-Changes :
      (document_id : String) (todo : List (DocumentChunk V)) (l : Library V)
      (r : Outcome ReservationOutcome × Store)
      → Changes l.tables r.1
      → Changes l.tables (after_reservation w worker g document_id todo l r).1.tables
  unfolding after_reservation
  after_reservation-Changes document_id todo l (integrity_error, s) h = h
  after_reservation-Changes document_id todo l (returned o, s) h = elim (Bool-cases o.reserved) [
    | inl e ↦ rw e (append h (run_embedding-Changes document_id todo true _))
    | inr e ↦ rw e h
  ]

  embed_claimed_group-Changes :
      (guard : Option BatchResourceGuard) (l : Library V)
      → Changes l.tables (embed_claimed_group w worker g guard l).1.tables
  unfolding embed_claimed_group
  embed_claimed_group-Changes guard l =
      elim (Option-cases
        (find_by (λ d. opt_eq d.content_identity_group_id (some g.id)) l.documents)) [
          | inl o ↦ rw (embed_claimed_group, o) (fail-Changes "no Document" false l.tables)
          | inr (d, o) ↦ elim (Bool-cases (is_empty (unembedded d.id l.chunks))) [
            | inl e ↦ rw (embed_claimed_group, o, e) (succeed-Changes d.id false l)
            | inr e ↦ elim (Option-cases (resolve_owning_running_batch g.id l.tables)) [
              | inl q ↦ rw (embed_claimed_group, o, e, q) (run_embedding-Changes d.id _ false l)
              | inr (b, q) ↦
                  rw (embed_claimed_group, o, e, q)
                    (after_reservation-Changes d.id _ l _
                      (reserve_embeddings-Costs w.free_at w.reachable g.id g.claim_generation b.id _
                        guard l.tables).0)
            ]
          ]
        ]

settle_group-Changes :
    {V : Type 0} (g : ContentIdentityGroup) (r : Outcome Bool × Library V)
    → Changes r.1.tables (settle_group g r).1.tables
unfolding settle_group
settle_group-Changes g (integrity_error, l) =
    (release_content_identity_group_claim-Costs g.id g.claim_generation none l.tables).0
settle_group-Changes g (returned true, l) = done l.tables
settle_group-Changes g (returned false, l) = done l.tables

embed_taken-Changes :
    {V : Type 0} (w : Backend V) (worker : String) (guard : Option BatchResourceGuard)
    (l : Library V) (r : Outcome (Option ContentIdentityGroup) × Store)
    → Changes r.1 (embed_taken w worker guard l r).1.tables
unfolding embed_taken
embed_taken-Changes w worker guard l (integrity_error, s) = done s
embed_taken-Changes w worker guard l (returned none, s) = done s
embed_taken-Changes w worker guard l (returned (some g), s) =
    append (embed_claimed_group-Changes w worker g guard _) (settle_group-Changes g _)

-- One step of the pipeline, on each of its ways, keeps every batch's count of embeddings between
-- what live reservations hold of it and its cap.
pub embed_next-Within :
    {V : Type 0} (w : Backend V) (locked : ℕ → Bool) (worker : String)
    (lease selecting claiming : ℕ) (guard : Option BatchResourceGuard) (l : Library V)
    → Distinct l.tables.groups
    → Within l.tables
    → Within (embed_next w locked worker lease selecting claiming guard l).1.tables
unfolding embed_next
embed_next-Within w locked worker lease selecting claiming guard l d h =
    Changes-Within
      (append
        (claim_content_identity_group-Costs locked (embedding_claim worker lease selecting claiming)
          l.tables d).0
        (embed_taken-Changes w worker guard l _))
      h
