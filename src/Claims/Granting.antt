-- ===== src/Claims/Granting.antt =====
-- What a claim of a group gives, and that there is no claim only when there is no work.
use ai_brain.Prelude.{
  ℕ, ◌≤◌, ◌≡◌, inl, inr, refl, Bool, true, false, Option, none, some, List, All, find,
  find_modified, sum_by-find, modify, oldest, oldest_missing, oldest_meets, oldest_first,
  oldest-All, Distinct, Distinct-find, Option-cases, arith, ltb, ==_refl,
}
use ai_brain.Batch.Model.{IngestionBatch, batch_keyed}
use ai_brain.Claims.Rows.{ContentIdentityGroup, group_keyed}
use ai_brain.Claims.Groups.{
  Store, Outcome, returned, GroupClaim, is_claimable, granted, refund, recover,
  claim_content_identity_group,
}
use ai_brain.Claims.Changes.{share, share_of}
use ai_brain.Claims.Bounds.{Within}

-- The outcome of a claim: no group can be claimed, or the oldest that can is.
pub data Granted (locked : ℕ → Bool) (c : GroupClaim) (s : Store)
    : Outcome (Option ContentIdentityGroup) × Store → Type 0 where
  no_work :
      All (λ g. is_claimable locked c g ≡ false) s.groups → Granted locked c s (returned none, s)
  oldest_granted :
      (g : ContentIdentityGroup) (batches : List IngestionBatch)
      → find g.id s.groups ≡ some g
      → is_claimable locked c g ≡ true
      → All (λ h. is_claimable locked c h ≡ true → g.created_at ≤ h.created_at) s.groups
      → recover g.reserved_embeddings g.reserved_embeddings_batch_id s.batches ≡ some batches
      → Granted locked c s (
        returned (some (granted c g)),
        record s { groups = modify g.id (granted c) s.groups; batches = batches },
      )

recover_counted :
    (amount owner : Option ℕ) (batches : List IngestionBatch)
    → ((b : ℕ) (x : IngestionBatch)
        → find b batches ≡ some x
        → share b amount owner ≤ x.embeddings_reserved)
    → (batches' : List IngestionBatch) × (recover amount owner batches ≡ some batches')
unfolding recover refund
recover_counted none owner batches h = (batches, refl)
recover_counted (some n) none batches h = (batches, refl)
recover_counted (some n) (some c) batches h = elim (Option-cases (find c batches)) [
  | inl o ↦ rw (recover, refund, o) (batches, refl)
  | inr (x, o) ↦
      let enough : n ≤ x.embeddings_reserved = let q = h c x o in rw (==_refl c) at q in
      let test : ltb x.embeddings_reserved n ≡ false = ground (arith, enough) in
      rw (recover, refund, o, test) (_, refl)
]

recover_succeeds :
    (g : ContentIdentityGroup) (s : Store)
    → Within s
    → find g.id s.groups ≡ some g
    → (batches : List IngestionBatch) × (recover g.reserved_embeddings
          g.reserved_embeddings_batch_id s.batches
        ≡ some batches)
recover_succeeds g s h f =
    recover_counted g.reserved_embeddings g.reserved_embeddings_batch_id s.batches
      (λ b x q. omega (arith, (h b x q).0, sum_by-find (share_of b) g.id s.groups g f))

-- With the counts of the batches within their bounds, a claim breaks no constraint and returns the oldest claimable
-- group, in the hands of the worker under the next generation and without a reservation; no group
-- is returned only when none can be claimed, and then nothing is written.
pub claim_content_identity_group-Granted :
    (locked : ℕ → Bool) (c : GroupClaim) (s : Store)
    → Distinct s.groups
    → Within s
    → Granted locked c s (claim_content_identity_group locked c s)
unfolding claim_content_identity_group granted
claim_content_identity_group-Granted locked c s d h =
    elim (Option-cases (oldest (is_claimable locked c) (λ g. g.created_at) s.groups)) [
      | inl o ↦ rw (claim_content_identity_group, o) (no_work (oldest_missing _ _ s.groups o))
      | inr (g, o) ↦
          let f = oldest-All _ _ _ g s.groups o (Distinct-find s.groups d) in
          let (batches, r) = recover_succeeds g s h f in
          rw
            (
              claim_content_identity_group,
              o,
              r,
              find_modified g.id (granted c) g s.groups (λ x. refl) f,
            )
            (oldest_granted g batches f (oldest_meets _ _ g s.groups o)
              (oldest_first _ _ g s.groups o) r)
    ]
