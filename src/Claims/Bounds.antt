-- ===== src/Claims/Bounds.antt =====
-- The bounds of every batch's count of embeddings.
use ai_brain.Prelude.{
  ℕ, ◌+◌, ◌-◌, ◌≤◌, ◌≡◌, refl, sym, ap, ◌∙◌, Option, none, some, List, inl, inr, arith,
  Option-cases, find, modify, find-modify, find_last,
}
use mathlib.Core.Option
use mathlib.Core.Option.{some_inj}
use mathlib.Core.Path.{subst}
use ai_brain.Batch.Model.{IngestionBatch, batch_keyed}
use ai_brain.Claims.Groups.{Store, refund, recover, debited}
use ai_brain.Claims.Reservations.{credited}
use ai_brain.Claims.Changes.{
  live, budget_of, Change, Changes, grant, release, reserve, consume, refunded, others, created,
  done, later,
}
use ai_brain.Claims.Refunding.{refund-Debited}
use ai_brain.Claims.Meter.{Shows, Moved, Change-Moved}

-- Each batch counts at least what the groups hold of it, and at most its cap.
abbrev pub Within : Store → Type 0
Within s =
    (b : ℕ) (x : IngestionBatch)
    → find b s.batches ≡ some x
    → (live b s.groups ≤ x.embeddings_reserved) × (x.embeddings_reserved ≤ x.max_embeddings)

-- A batch that is within its bounds shows a meter.
shown :
    (b : ℕ) (x : IngestionBatch) (s : Store)
    → find b s.batches ≡ some x
    → (live b s.groups ≤ x.embeddings_reserved) × (x.embeddings_reserved ≤ x.max_embeddings)
    → Shows b x.max_embeddings s
        (record { held = live b s.groups; spent = x.embeddings_reserved - live b s.groups })
shown b x s f h = record {
  counted =
      ap (Option.map budget_of) {y = some x} f
      ∙ ap (λ u. some (record { used = u; cap = x.max_embeddings })) (omega (arith, h.0));
  holds = refl;
  within = omega (arith, h.0, h.1);
}

Moved-within :
    (b cap : ℕ) (x : IngestionBatch) {n : ℕ} {m : _} (s : Store)
    → Moved b cap n m s
    → find b s.batches ≡ some x
    → (live b s.groups ≤ x.embeddings_reserved) × (x.embeddings_reserved ≤ x.max_embeddings)
Moved-within b cap x s v f =
    let h = v.shows in
    let e : budget_of x ≡ record { used = v.meter.held + v.meter.spent; cap = cap } =
      some_inj.0 (sym (ap (Option.map budget_of) {y = some x} f) ∙ h.counted) in
    let used : x.embeddings_reserved ≡ v.meter.held + v.meter.spent = ap (λ y. y.used) e in
    let most : x.max_embeddings ≡ cap = ap (λ y. y.cap) e in
    (omega (arith, used, h.holds), omega (arith, used, most, h.within))

missing-modify :
    (b id : ℕ) (f : IngestionBatch → IngestionBatch) (batches : List IngestionBatch)
    → ((x : IngestionBatch) → (f x).id ≡ x.id)
    → find b batches ≡ none
    → find b (modify id f batches) ≡ none
missing-modify b id f batches k h = ground (arith, find-modify b id f batches k)

missing-refund :
    (b n : ℕ) (owner : Option ℕ) (batches batches' : List IngestionBatch)
    → refund n owner batches ≡ some batches'
    → find b batches ≡ none
    → find b batches' ≡ none
unfolding refund
missing-refund b n none batches batches' h q = rw (sym (some_inj.0 h)) q
missing-refund b n (some c) batches batches' h q = elim (refund-Debited n c batches batches' h) [
  | inl (o, r) ↦ rw r q
  | inr d ↦ rw d.result (missing-modify b c (debited n) batches (λ x. refl) q)
]

missing-recover :
    (b : ℕ) (amount owner : Option ℕ) (batches batches' : List IngestionBatch)
    → recover amount owner batches ≡ some batches'
    → find b batches ≡ none
    → find b batches' ≡ none
unfolding recover
missing-recover b none owner batches batches' h q = rw (sym (some_inj.0 h)) q
missing-recover b (some n) owner batches batches' h q =
    missing-refund b n owner batches batches' h q

-- A batch that was not there is not there after a transaction, unless it was created.
missing-Change :
    (b : ℕ) (x : IngestionBatch) {s s' : Store}
    → Change s s'
    → find b s.batches ≡ none
    → find b s'.batches ≡ some x
    → (x.embeddings_reserved ≡ 0) × (live b s'.groups ≡ 0)
missing-Change b x {s} (grant c g batches f r) q h =
    let p = missing-recover b _ _ s.batches batches r q in absurd cc
missing-Change b x (release id generation state g f) q h = absurd cc
missing-Change b x {s} (reserve id generation n g y f k room) q h =
    let p = missing-modify b y.id (credited n) s.batches (λ z. refl) q in absurd cc
missing-Change b x (consume id generation g f) q h = absurd cc
missing-Change b x {s} (refunded id generation n g batches f e r) q h =
    let p = missing-refund b n _ s.batches batches r q in absurd cc
missing-Change b x (others s' g k t) q h = let p = t b q in absurd cc
missing-Change b x {s} (created y f z l) q h =
    let (same, at) = find_last b x y s.batches q h in
    (subst (λ w. w.embeddings_reserved ≡ 0) same z, subst (λ k. live k s.groups ≡ 0) at l)

pub Change-Within : {s s' : Store} → Change s s' → Within s → Within s'
Change-Within {s} {s'} c h b x f = elim (Option-cases (find b s.batches)) [
  | inl o ↦ let (z, l) = missing-Change b x c o f in (omega (arith, l), omega (arith, z))
  | inr (y, o) ↦
      Moved-within b y.max_embeddings x s'
        (Change-Moved b y.max_embeddings _ c (shown b y s o (h b y o))) f
]

-- Whatever transactions are committed, by any workers in any order, each batch counts at least the
-- embeddings that live reservations hold of it and never more than its cap.
pub Changes-Within : {s s' : Store} → Changes s s' → Within s → Within s'
Changes-Within (done s) h = h
Changes-Within (later s s' s'' c r) h = Changes-Within r (Change-Within c h)
