-- ===== src/Claims/Changes.antt =====
-- The transactions that the service and the others commit, one at a time: any interleaving of calls
-- by any number of workers is a sequence of them.
use ai_brain.Prelude.{
  ℕ, ◌+◌, ◌≡◌, ◌⊎◌, refl, true, Option, none, some, List, [], ◌∷◌, ◌++◌, sum_by, if◌then◌else◌,
  find, modify, Option-cases, inl, inr, arith, ◌==◌,
}
use mathlib.Core.Option
use ai_brain.Batch.Model.{IngestionBatch, batch_keyed}
use ai_brain.Batch.Guard.{GuardTier}
use ai_brain.Claims.Rows.{ContentIdentityGroup, ContentPipelineState, group_keyed}
use ai_brain.Claims.Groups.{Store, GroupClaim, granted, refund, recover, row_at, released}
use ai_brain.Claims.Reservations.{has_room, set_reservation, clear_reservation, credited}

-- The columns of a batch that count embeddings.
pub record Budget : Type 0 where
  pub used : ℕ
  pub cap : ℕ

abbrev pub budget_of : IngestionBatch → Budget
budget_of b = record { used = b.embeddings_reserved; cap = b.max_embeddings }

abbrev pub budget : ℕ → List IngestionBatch → Option Budget
budget id batches = Option.map budget_of (find id batches)

-- The amount that a reservation holds of a batch.
abbrev pub share : ℕ → Option ℕ → Option ℕ → ℕ
share b (some n) (some c) = if c == b then n else 0
share b _ _ = 0

abbrev pub share_of : ℕ → ContentIdentityGroup → ℕ
share_of b g = share b g.reserved_embeddings g.reserved_embeddings_batch_id

abbrev pub live : ℕ → List ContentIdentityGroup → ℕ
live b = sum_by (share_of b)

pub data Change (s : Store) : Store → Type 0 where
  grant :
      (c : GroupClaim) (g : ContentIdentityGroup) (batches : List IngestionBatch)
      → find g.id s.groups ≡ some g
      → recover g.reserved_embeddings g.reserved_embeddings_batch_id s.batches ≡ some batches
      → Change s (record s { groups = modify g.id (granted c) s.groups; batches = batches })
  release :
      (id generation : ℕ) (state : Option ContentPipelineState) (g : ContentIdentityGroup)
      → row_at id generation s.groups ≡ some g
      → Change s (record s { groups = modify id (released state) s.groups })
  reserve :
      (id generation n : ℕ) (g : ContentIdentityGroup) (b : IngestionBatch)
      → row_at id generation s.groups ≡ some g
      → find b.id s.batches ≡ some b
      → has_room n b ≡ true
      → Change s (record s {
        groups = modify id (set_reservation n b.id) s.groups;
        batches = modify b.id (credited n) s.batches;
      })
  consume :
      (id generation : ℕ) (g : ContentIdentityGroup)
      → row_at id generation s.groups ≡ some g
      → Change s (record s { groups = modify id clear_reservation s.groups })
  refunded :
      (id generation n : ℕ) (g : ContentIdentityGroup) (batches : List IngestionBatch)
      → row_at id generation s.groups ≡ some g
      → g.reserved_embeddings ≡ some n
      → refund n g.reserved_embeddings_batch_id s.batches ≡ some batches
      → Change s (record s { groups = modify id clear_reservation s.groups; batches = batches })
  -- What other services commit: they leave the groups, and the counts of embeddings of the
  -- batches that are there, as they are.
  others :
      (s' : Store)
      → s'.groups ≡ s.groups
      → ((id : ℕ) (x : Budget) → budget id s.batches ≡ some x → budget id s'.batches ≡ some x)
      → ((id : ℕ) → find id s.batches ≡ none → find id s'.batches ≡ none)
      → Change s s'
  -- A new batch, which no group refers to yet.
  created :
      (b : IngestionBatch)
      → find b.id s.batches ≡ none
      → b.embeddings_reserved ≡ 0
      → live b.id s.groups ≡ 0
      → Change s (record s { batches = s.batches ++ b ∷ [] })

pub data Changes : Store → Store → Type 0 where
  done : (s : Store) → Changes s s
  later : (s s' s'' : Store) → Change s s' → Changes s' s'' → Changes s s''

-- What a transaction spends of a batch: the reservation that it consumes, or that it overwrites and so
-- leaves counted.
abbrev pub cost : {s s' : Store} → ℕ → Change s s' → ℕ
cost b (grant c g batches f r) = 0
cost b (release id generation state g f) = 0
cost b (reserve id generation n g x f k room) = share_of b g
cost b (consume id generation g f) = share_of b g
cost b (refunded id generation n g batches f q r) = 0
cost b (others s' q r t) = 0
cost b (created x f z l) = 0

abbrev pub costs : {s s' : Store} → ℕ → Changes s s' → ℕ
costs b (done s) = 0
costs b (later s s' s'' c r) = cost b c + costs b r

unfoldable pub one : {s s' : Store} → Change s s' → Changes s s'
one {s} {s'} c = later s s' s' c (done s')

pub append : {s s' s'' : Store} → Changes s s' → Changes s' s'' → Changes s s''
append (done s) d = d
append (later s t u c r) d = later s t _ c (append r d)

pub row_at-find :
    (id generation : ℕ) (groups : List ContentIdentityGroup) (g : ContentIdentityGroup)
    → row_at id generation groups ≡ some g
    → find id groups ≡ some g
unfolding row_at
row_at-find id generation groups g h = elim (Option-cases (find id groups)) [
  | inl o ↦ absurd (ground (arith, h, o))
  | inr (g', o) ↦ ground (arith, h, o)
]

pub row_at_generation :
    (id generation : ℕ) (groups : List ContentIdentityGroup) (g : ContentIdentityGroup)
    → row_at id generation groups ≡ some g
    → g.claim_generation ≡ generation
unfolding row_at
row_at_generation id generation groups g h = elim (Option-cases (find id groups)) [
  | inl o ↦ absurd (ground (arith, h, o))
  | inr (g', o) ↦ ground (arith, h, o)
]

pub Tier-cases :
    (t : GuardTier)
    → (t ≡ GuardTier.normal) ⊎ ((t ≡ GuardTier.soft_stop) ⊎ (t ≡ GuardTier.hard_stop))
Tier-cases GuardTier.normal = inl refl
Tier-cases GuardTier.soft_stop = inr (inl refl)
Tier-cases GuardTier.hard_stop = inr (inr refl)

pub costs-append :
    {s s' s'' : Store} (b : ℕ) (c : Changes s s') (d : Changes s' s'')
    → costs b (append c d) ≡ costs b c + costs b d
unfolding append
costs-append b (done s) d = omega arith
costs-append b (later s t u c r) d = omega (arith, costs-append b r d)
