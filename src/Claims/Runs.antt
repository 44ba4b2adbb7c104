-- ===== src/Claims/Runs.antt =====
-- Sequences of calls of the service, by any workers with any arguments.
use ai_brain.Prelude.{
  ℕ, ◌+◌, refl, arith, if◌then◌else◌, String, Bool, Option, List, [], ◌∷◌, Distinct,
  Distinct-modify,
}
use mathlib.Core.Path.{subst, sym}
use ai_brain.Batch.Guard.{BatchResourceGuard}
use ai_brain.Claims.Rows.{ContentPipelineState, group_keyed}
use ai_brain.Claims.Groups.{
  Store, GroupClaim, granted, released, claim_content_identity_group,
  release_content_identity_group_claim,
}
use ai_brain.Claims.Reservations.{
  set_reservation, clear_reservation, reserve_embeddings, consume_embedding_reservation,
  release_embedding_reservation,
}
use ai_brain.Claims.Changes.{
  Change, Changes, grant, release, reserve, consume, refunded, others, created, done, later, append,
  costs-append,
}
use ai_brain.Claims.Costs.{
  is_reserved, reservation_at, Costs, claim_content_identity_group-Costs,
  release_content_identity_group_claim-Costs, reserve_embeddings-Costs,
  consume_embedding_reservation-Costs, release_embedding_reservation-Costs,
}
use ai_brain.Claims.Meter.{Meter, Shows, Moved, Changes-Moved}
use ai_brain.Claims.Bounds.{Within, Changes-Within}

pub data Call : Type 0 where
  claim_call : (ℕ → Bool) → GroupClaim → Call
  release_call : ℕ → ℕ → Option ContentPipelineState → Call
  reserve_call : (String → ℕ) → Bool → ℕ → ℕ → ℕ → ℕ → Option BatchResourceGuard → Call
  consume_call : ℕ → ℕ → ContentPipelineState → Call
  give_back_call : ℕ → ℕ → Call

abbrev pub perform : Call → Store → Store
perform (claim_call locked c) s = (claim_content_identity_group locked c s).1
perform (release_call id generation state) s =
    (release_content_identity_group_claim id generation state s).1
perform (reserve_call free_at reachable id generation batch n guard) s =
    (reserve_embeddings free_at reachable id generation batch n guard s).0.1
perform (consume_call id generation state) s =
    (consume_embedding_reservation id generation state s).1
perform (give_back_call id generation) s = (release_embedding_reservation id generation s).1

unfoldable pub perform_all : List Call → Store → Store
perform_all [] s = s
perform_all (c ∷ cs) s = perform_all cs (perform c s)

-- What a call spends of a batch: a consumption what the group's row holds of it, a reservation that is
-- granted what the row held of it before, and every other call nothing.
abbrev pub spends : ℕ → Call → Store → ℕ
spends b (reserve_call free_at reachable id generation batch n guard) s =
    if is_reserved (reserve_embeddings free_at reachable id generation batch n guard s).0.0
    then reservation_at b id generation s
    else 0
spends b (consume_call id generation state) s = reservation_at b id generation s
spends b _ s = 0

-- What calls spend one after another.
unfoldable pub spent_by : ℕ → List Call → Store → ℕ
spent_by b [] s = 0
spent_by b (c ∷ cs) s = spends b c s + spent_by b cs (perform c s)

perform-Costs :
    (c : Call) (s : Store) → Distinct s.groups → Costs (λ b. spends b c s) s (perform c s)
perform-Costs (claim_call locked c) s d = claim_content_identity_group-Costs locked c s d
perform-Costs (release_call id generation state) s d =
    release_content_identity_group_claim-Costs id generation state s
perform-Costs (reserve_call free_at reachable id generation batch n guard) s d =
    reserve_embeddings-Costs free_at reachable id generation batch n guard s
perform-Costs (consume_call id generation state) s d =
    consume_embedding_reservation-Costs id generation state s
perform-Costs (give_back_call id generation) s d =
    release_embedding_reservation-Costs id generation s

Change-Distinct : {s s' : Store} → Change s s' → Distinct s.groups → Distinct s'.groups
unfolding granted
Change-Distinct {s} (grant c g batches f r) d =
    Distinct-modify g.id (granted c) s.groups (λ x. refl) d
Change-Distinct {s} (release id generation state g f) d =
    Distinct-modify id (released state) s.groups (λ x. refl) d
Change-Distinct {s} (reserve id generation n g b f k room) d =
    Distinct-modify id (set_reservation n b.id) s.groups (λ x. refl) d
Change-Distinct {s} (consume id generation g f) d =
    Distinct-modify id clear_reservation s.groups (λ x. refl) d
Change-Distinct {s} (refunded id generation n g batches f q r) d =
    Distinct-modify id clear_reservation s.groups (λ x. refl) d
Change-Distinct (others s' q r t) d = subst Distinct (sym q) d
Change-Distinct (created b f z l) d = d

Changes-Distinct : {s s' : Store} → Changes s s' → Distinct s.groups → Distinct s'.groups
Changes-Distinct (done s) d = d
Changes-Distinct (later s s' s'' c r) d = Changes-Distinct r (Change-Distinct c d)

-- The calls commit a sequence of the transactions, each of which any other session's may follow.
perform_all-Costs :
    (calls : List Call) (s : Store)
    → Distinct s.groups
    → Costs (λ b. spent_by b calls s) s (perform_all calls s)
unfolding perform_all spent_by
perform_all-Costs [] s d = (done s, λ b. refl)
perform_all-Costs (c ∷ cs) s d =
    let first = perform-Costs c s d in
    let rest = perform_all-Costs cs (perform c s) (Changes-Distinct first.0 d) in
    (append first.0 rest.0, λ b. omega (arith, costs-append b first.0 rest.0, first.1 b, rest.1 b))

pub perform_all-Changes :
    (calls : List Call) (s : Store) → Distinct s.groups → Changes s (perform_all calls s)
perform_all-Changes calls s d = (perform_all-Costs calls s d).0

-- The calls refine the meter of each batch: whatever calls are made in any order, from tables that
-- show a meter of the batch and where the groups' keys are distinct, the tables show a meter that was
-- reached by holding no more than the cap left, by spending what was held and by giving back what was
-- held. What was spent is exactly what the groups held when their reservations were consumed, and what a
-- group held whose reservation a new one overwrote; whatever else is no longer held was given back.
pub perform_all-Moved :
    (b cap : ℕ) (m : Meter) (calls : List Call) (s : Store)
    → Distinct s.groups
    → Shows b cap s m
    → Moved b cap (spent_by b calls s) m (perform_all calls s)
perform_all-Moved b cap m calls s d h =
    let (r, q) = perform_all-Costs calls s d in
    subst (λ n. Moved b cap n m (perform_all calls s)) (q b) (Changes-Moved b cap m r h)

-- Whatever calls are made in any order, each batch counts at least the embeddings that live
-- reservations hold of it, and never more than its cap.
pub perform_all-Within :
    (calls : List Call) (s : Store) → Distinct s.groups → Within s → Within (perform_all calls s)
perform_all-Within calls s d h = Changes-Within (perform_all-Changes calls s d) h
