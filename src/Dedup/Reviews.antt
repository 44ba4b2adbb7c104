-- ===== src/Dedup/Reviews.antt =====
-- The decision layer: backend/app/dedup/review_service.py, its approvals and rejections.
use ai_brain.Prelude.{
  ℕ, String, Bool, true, false, Option, none, some, List, [], ◌∷◌, map, if◌then◌else◌, ◌==◌,
  text_eq, filter, any, is_empty, find, modify,
}
use ai_brain.Dedup.Records.{
  Database, Document, DuplicateReview, DuplicateReviewMember, DuplicateMatchType, exact, near,
  DuplicateReviewStatus, pending, approved, rejected, review_keyed,
}
use ai_brain.Dedup.Exec.{
  Exec, review_not_found, not_pending, no_members, not_a_member, canonical_required, pure, raise,
  gets, required, guard, commit, ◌>>=◌, ◌>>◌,
}

unfoldable pub find_document : String → List Document → Option Document
find_document id [] = none
find_document id (d ∷ ds) = if text_eq d.id id then some d else find_document id ds

abbrev pub is_pending : DuplicateReviewStatus → Bool
is_pending pending = true
is_pending _ = false

abbrev pub is_approved : DuplicateReviewStatus → Bool
is_approved approved = true
is_approved _ = false

abbrev pub is_exact : DuplicateMatchType → Bool
is_exact exact = true
is_exact near = false

unfoldable pub members_of : ℕ → Database → List DuplicateReviewMember
members_of review_id db = filter (λ m. m.review_id == review_id) db.members

-- The ids of a review's members.
unfoldable pub member_ids : ℕ → Database → List String
unfolding members_of
member_ids review_id db = map (λ m. m.document_id) (members_of review_id db)

abbrev pub contains : List String → String → Bool
contains ids id = any (text_eq id) ids

unfoldable pub decide :
    ℕ → DuplicateReviewStatus → Option String → Option String → DuplicateReview → DuplicateReview
decide now status canonical decision r = record r {
  status = status;
  reviewer_decision = decision;
  reviewed_at = some now;
  human_selected_canonical_document_id = canonical;
}

module _ {W : Type 0} where
  unfoldable pub get_review_or_raise : ℕ → Exec W DuplicateReview
  get_review_or_raise review_id = do
    r ← gets (λ db. find review_id db.reviews)
    required review_not_found r

  -- The choice of a canonical document that an approval needs.
  unfoldable pub validate_canonical :
      DuplicateReview → Option String → List String → Exec W (Unit {0})
  validate_canonical review (some id) ids = guard (contains ids id) not_a_member
  validate_canonical review none ids =
      if is_exact review.match_type then raise canonical_required else pure tt

  -- `canonical_document_id` and `reviewer_decision` are the human's.
  unfoldable pub approve_review : ℕ → ℕ → Option String → Option String → Exec W (Unit {0})
  approve_review now review_id canonical decision = do
    review ← get_review_or_raise review_id
    guard (is_pending review.status) not_pending
    ids ← gets (member_ids review.id)
    (if is_empty ids then raise no_members else pure tt)
    validate_canonical review canonical ids
    commit (λ db. record db {
      reviews = modify review_id (decide now approved canonical decision) db.reviews;
    })

  -- A rejection leaves the canonical choice as it is.
  unfoldable pub reject_review : ℕ → ℕ → Option String → Exec W (Unit {0})
  reject_review now review_id decision = do
    review ← get_review_or_raise review_id
    guard (is_pending review.status) not_pending
    commit (λ db. record db {
      reviews =
          modify review_id
            (λ r. decide now rejected r.human_selected_canonical_document_id decision r) db.reviews;
    })
