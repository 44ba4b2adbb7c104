-- ===== src/Claims/Returning.antt =====
-- A reservation that is given back leaves no trace.
use ai_brain.Prelude.{
  ℕ, ◌+◌, ◌-◌, ◌≡◌, refl, ap, ◌∙◌, true, false, none, some, List, find, find_modified, modify,
  modify_twice, modify_same, Option-cases, Bool-cases, inl, inr, arith, ◌==◌, ltb, ==_refl,
}
use ai_brain.Batch.Model.{IngestionBatch, batch_keyed}
use ai_brain.Claims.Rows.{ContentIdentityGroup, group_keyed}
use ai_brain.Claims.Groups.{
  Store, returned, refund, row_at, debited, released, release_content_identity_group_claim,
}
use ai_brain.Claims.Reservations.{
  has_room, set_reservation, clear_reservation, credited, reserve_rows,
  release_embedding_reservation,
}
use ai_brain.Claims.Changes.{row_at-find, row_at_generation}
use ai_brain.Claims.Costs.{is_reserved}

pub row_at-modified :
    (id generation : ℕ) (f : ContentIdentityGroup → ContentIdentityGroup) (g : ContentIdentityGroup)
    (groups : List ContentIdentityGroup)
    → ((x : ContentIdentityGroup) → (f x).id ≡ x.id)
    → ((x : ContentIdentityGroup) → (f x).claim_generation ≡ x.claim_generation)
    → row_at id generation groups ≡ some g
    → row_at id generation (modify id f groups) ≡ some (f g)
unfolding row_at
row_at-modified id generation f g groups same kept h =
    let found = row_at-find id generation groups g h in
    let at : ((f g).claim_generation == generation) ≡ true =
      rw (kept g, row_at_generation id generation groups g h) (==_refl generation) in
    rw (row_at, find_modified id f g groups same found, at) refl

back_to_row : (n : ℕ) (b : IngestionBatch) → debited n (credited n b) ≡ b
back_to_row n b =
    ap (λ k. record b { embeddings_reserved = k }) {x = b.embeddings_reserved + n - n}
      {y = b.embeddings_reserved} (omega arith)

abbrev pub placed : ℕ → ℕ → IngestionBatch → Store → Store
placed id n b s = record s {
  groups = modify id (set_reservation n b.id) s.groups;
  batches = modify b.id (credited n) s.batches;
}

-- What a reservation wrote.
pub record Placed (id generation n : ℕ) (b : IngestionBatch) (s s' : Store) : Type 0 where
  pub group : ContentIdentityGroup
  pub at : row_at id generation s.groups ≡ some group
  pub some_amount : (n == 0) ≡ false
  pub room : has_room n b ≡ true
  pub result : s' ≡ placed id n b s

pub reserve_rows-Placed :
    (id generation n : ℕ) (b : IngestionBatch) (s : Store)
    → is_reserved (reserve_rows id generation b n s).0 ≡ true
    → Placed id generation n b s (reserve_rows id generation b n s).1
unfolding reserve_rows
reserve_rows-Placed id generation n b s h = elim (Option-cases (row_at id generation s.groups)) [
  | inl o ↦ let q = rw (reserve_rows, o) at h in absurd cc
  | inr (g, o) ↦ elim (Bool-cases (n == 0)) [
    | inl z ↦ let q = rw (reserve_rows, o, z) at h in absurd cc
    | inr z ↦ elim (Bool-cases (has_room n b)) [
      | inr r ↦ let q = rw (reserve_rows, o, z, r) at h in absurd cc
      | inl r ↦
          rw (reserve_rows, o, z, r)
            (record { group = g; at = o; some_amount = z; room = r; result = refl })
    ]
  ]
]

pub given_back :
    (id generation n : ℕ) (b : IngestionBatch) (g : ContentIdentityGroup) (s : Store)
    → find b.id s.batches ≡ some b
    → row_at id generation s.groups ≡ some g
    → release_embedding_reservation id generation (placed id n b s) ≡ (
      returned true,
      record s { groups = modify id (λ x. released none (clear_reservation x)) s.groups },
    )
unfolding release_embedding_reservation release_content_identity_group_claim refund
given_back id generation n b g s f h =
    let set = set_reservation n b.id in
    let reserved = row_at-modified id generation set g s.groups (λ x. refl) (λ x. refl) h in
    let cleared =
      row_at-modified id generation clear_reservation (set g) (modify id set s.groups) (λ x. refl)
        (λ x. refl) reserved in
    let row = find_modified b.id (credited n) b s.batches (λ x. refl) f in
    let enough : ltb (b.embeddings_reserved + n) n ≡ false = ground arith in
    rw
      (
        release_embedding_reservation, reserved, refund, row, enough,
        release_content_identity_group_claim, cleared,
      )
      (rw
        (
          modify_twice id clear_reservation (released none) (modify id set s.groups) (λ x. refl),
          modify_twice id set (λ x. released none (clear_reservation x)) s.groups (λ x. refl),
          modify_twice b.id (credited n) (debited n) s.batches (λ x. refl),
          modify_same b.id (λ x. debited n (credited n x)) s.batches (back_to_row n),
        )
        refl)

-- After a reservation that succeeded, giving it back succeeds: every batch is as it was, and the
-- group as it was without a reservation and without a claim.
pub reserve_rows-release_embedding_reservation :
    (id generation n : ℕ) (b : IngestionBatch) (s : Store)
    → find b.id s.batches ≡ some b
    → is_reserved (reserve_rows id generation b n s).0 ≡ true
    → release_embedding_reservation id generation (reserve_rows id generation b n s).1 ≡ (
      returned true,
      record s { groups = modify id (λ g. released none (clear_reservation g)) s.groups },
    )
reserve_rows-release_embedding_reservation id generation n b s f h =
    let p = reserve_rows-Placed id generation n b s h in
    ap (release_embedding_reservation id generation) p.result
    ∙ given_back id generation n b p.group s f p.at
