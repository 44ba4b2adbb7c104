-- ===== src/Claims/Costs.antt =====
-- What each call of the service commits, and what it spends of the batches: a consumption spends the
-- reservation of its group, and a reservation leaves counted the one that it overwrites.
use ai_brain.Prelude.{
  ℕ, ◌≡◌, refl, ◌∙◌, String, find_own, Bool, false, Option, none, some, if◌then◌else◌, find, oldest,
  Distinct, Distinct-find, oldest-All, Option-cases, Bool-cases, inl, inr, arith, ◌==◌,
}
use ai_brain.Batch.Model.{IngestionBatch, batch_keyed}
use ai_brain.Batch.Guard.{BatchResourceGuard, check_before_expensive_operation, embedding}
use ai_brain.Claims.Rows.{ContentIdentityGroup, ContentPipelineState, group_keyed}
use ai_brain.Claims.Groups.{
  Store, Outcome, returned, integrity_error, GroupClaim, is_claimable, refund, recover,
  claim_content_identity_group, row_at, release_content_identity_group_claim,
}
use ai_brain.Claims.Reservations.{
  ReservationOutcome, has_room, reserve_rows, reserve_embeddings, consume_embedding_reservation,
  release_embedding_reservation,
}
use ai_brain.Claims.Changes.{
  share_of, Change, Changes, grant, release, reserve, consume, refunded, done, one, append, cost,
  costs, costs-append, Tier-cases,
}

abbrev pub is_reserved : Outcome ReservationOutcome → Bool
is_reserved (returned o) = o.reserved
is_reserved integrity_error = false

-- What the group's row holds of a batch, if it is still at the generation.
abbrev pub reservation_at : ℕ → ℕ → ℕ → Store → ℕ
reservation_at b id generation s = elim (row_at id generation s.groups) [
  | none ↦ 0
  | some g ↦ share_of b g
]

reservation_none :
    (b id generation : ℕ) (s : Store)
    → row_at id generation s.groups ≡ none
    → 0 ≡ reservation_at b id generation s
reservation_none b id generation s o = rw (reservation_at, o) refl

reservation_some :
    (b id generation : ℕ) (s : Store) (g : ContentIdentityGroup)
    → row_at id generation s.groups ≡ some g
    → share_of b g ≡ reservation_at b id generation s
reservation_some b id generation s g o = rw (reservation_at, o) refl

-- Transactions that spend exactly an amount of each batch.
abbrev pub Costs : (ℕ → ℕ) → Store → Store → Type 0
Costs amounts s s' = (r : Changes s s') × ((b : ℕ) → costs b r ≡ amounts b)

nothing : (s : Store) → Costs (λ b. 0) s s
nothing s = (done s, λ b. refl)

-- The same for amounts that are zero.
nothing_at : (amounts : ℕ → ℕ) (s : Store) → ((b : ℕ) → 0 ≡ amounts b) → Costs amounts s s
nothing_at amounts s h = (done s, h)

single :
    {s s' : Store} {amounts : ℕ → ℕ} (c : Change s s')
    → ((b : ℕ) → cost b c ≡ amounts b)
    → Costs amounts s s'
unfolding one
single c h = (one c, λ b. omega (arith, h b))

-- A transaction and then some that spend nothing.
followed :
    {s s' s'' : Store} {amounts : ℕ → ℕ} (c : Change s s')
    → ((b : ℕ) → cost b c ≡ amounts b)
    → Costs (λ b. 0) s' s''
    → Costs amounts s s''
unfolding one
followed c h (r, q) = (append (one c) r, λ b. omega (arith, costs-append b (one c) r, h b, q b))

-- Each call is a sequence of transactions, and spends what it should.
pub claim_content_identity_group-Costs :
    (locked : ℕ → Bool) (c : GroupClaim) (s : Store)
    → Distinct s.groups
    → Costs (λ b. 0) s (claim_content_identity_group locked c s).1
unfolding claim_content_identity_group
claim_content_identity_group-Costs locked c s d =
    elim (Option-cases (oldest (is_claimable locked c) (λ g. g.created_at) s.groups)) [
      | inl o ↦ rw (claim_content_identity_group, o) (nothing s)
      | inr (g, o) ↦
          elim (Option-cases
            (recover g.reserved_embeddings g.reserved_embeddings_batch_id s.batches)) [
              | inl q ↦ rw (claim_content_identity_group, o, q) (nothing s)
              | inr (batches, q) ↦
                  rw (claim_content_identity_group, o, q)
                    (single
                      (grant c g batches
                        (oldest-All (is_claimable locked c) (λ g. g.created_at) _ g s.groups o
                          (Distinct-find s.groups d))
                        q)
                      (λ b. refl))
            ]
    ]

pub release_content_identity_group_claim-Costs :
    (id generation : ℕ) (state : Option ContentPipelineState) (s : Store)
    → Costs (λ b. 0) s (release_content_identity_group_claim id generation state s).1
unfolding release_content_identity_group_claim
release_content_identity_group_claim-Costs id generation state s =
    elim (Option-cases (row_at id generation s.groups)) [
      | inl o ↦ rw (release_content_identity_group_claim, o) (nothing s)
      | inr (g, o) ↦
          rw (release_content_identity_group_claim, o)
            (single (release id generation state g o) (λ b. refl))
    ]

reserve_rows-Costs :
    (id generation n : ℕ) (b : IngestionBatch) (s : Store)
    → find b.id s.batches ≡ some b
    → Costs
        (λ c.
          if is_reserved (reserve_rows id generation b n s).0
          then reservation_at c id generation s
          else 0)
        s
        (reserve_rows id generation b n s).1
unfolding reserve_rows
reserve_rows-Costs id generation n b s f =
    let away = release_content_identity_group_claim-Costs id generation none s in
    elim (Option-cases (row_at id generation s.groups)) [
      | inl o ↦ rw (reserve_rows, o) away
      | inr (g, o) ↦ elim (Bool-cases (n == 0)) [
        | inl z ↦ rw (reserve_rows, o, z) (nothing s)
        | inr z ↦ elim (Bool-cases (has_room n b)) [
          | inl r ↦
              rw (reserve_rows, o, z, r)
                (single (reserve id generation n g b o f r)
                  (λ c. reservation_some c id generation s g o))
          | inr r ↦ rw (reserve_rows, o, z, r) away
        ]
      ]
    ]

pub reserve_embeddings-Costs :
    (free_at : String → ℕ) (reachable : Bool) (group_id my_generation batch_id n : ℕ)
    (guard : Option BatchResourceGuard) (s : Store)
    → let r = (reserve_embeddings free_at reachable group_id my_generation batch_id n guard s).0 in
      Costs (λ c. if is_reserved r.0 then reservation_at c group_id my_generation s else 0) s r.1
unfolding reserve_embeddings
reserve_embeddings-Costs free_at reachable group_id my_generation batch_id n guard s =
    let away = release_content_identity_group_claim-Costs group_id my_generation none s in
    elim (Option-cases (find batch_id s.batches)) [
      | inl o ↦ rw (reserve_embeddings, o) away
      | inr (b, o) ↦
          let rows =
            reserve_rows-Costs group_id my_generation n b s (find_own batch_id b s.batches o) in
          elim (Option-cases guard) [
            | inl q ↦ rw (reserve_embeddings, o, q) rows
            | inr (g, q) ↦
                elim (Tier-cases
                  (check_before_expensive_operation free_at reachable embedding g).0.tier) [
                    | inl t ↦ rw (reserve_embeddings, o, q, t) rows
                    | inr (inl t) ↦ rw (reserve_embeddings, o, q, t) away
                    | inr (inr t) ↦ rw (reserve_embeddings, o, q, t) away
                  ]
          ]
    ]

pub consume_embedding_reservation-Costs :
    (group_id my_generation : ℕ) (state : ContentPipelineState) (s : Store)
    → Costs
        (λ b. reservation_at b group_id my_generation s)
        s
        (consume_embedding_reservation group_id my_generation state s).1
unfolding consume_embedding_reservation
consume_embedding_reservation-Costs group_id my_generation state s =
    elim (Option-cases (row_at group_id my_generation s.groups)) [
      | inl o ↦
          rw (consume_embedding_reservation, o)
            (nothing_at _ s (λ b. reservation_none b group_id my_generation s o))
      | inr (g, o) ↦ elim (Option-cases g.reserved_embeddings) [
        | inl q ↦
            rw (consume_embedding_reservation, o, q)
              (nothing_at _ s (λ b.
                let e : 0 ≡ share_of b g = rw q refl in
                e ∙ reservation_some b group_id my_generation s g o))
        | inr (n, q) ↦
            rw (consume_embedding_reservation, o, q)
              (followed (consume group_id my_generation g o)
                (λ b. reservation_some b group_id my_generation s g o)
                (release_content_identity_group_claim-Costs group_id my_generation (some state) _))
      ]
    ]

pub release_embedding_reservation-Costs :
    (group_id my_generation : ℕ) (s : Store)
    → Costs (λ b. 0) s (release_embedding_reservation group_id my_generation s).1
unfolding release_embedding_reservation
release_embedding_reservation-Costs group_id my_generation s =
    elim (Option-cases (row_at group_id my_generation s.groups)) [
      | inl o ↦ rw (release_embedding_reservation, o) (nothing s)
      | inr (g, o) ↦ elim (Option-cases g.reserved_embeddings) [
        | inl q ↦ rw (release_embedding_reservation, o, q) (nothing s)
        | inr (n, q) ↦ elim (Option-cases (refund n g.reserved_embeddings_batch_id s.batches)) [
          | inl r ↦ rw (release_embedding_reservation, o, q, r) (nothing s)
          | inr (bs, r) ↦
              rw (release_embedding_reservation, o, q, r)
                (followed (refunded group_id my_generation n g bs o q r) (λ b. refl)
                  (release_content_identity_group_claim-Costs group_id my_generation none _))
        ]
      ]
    ]
