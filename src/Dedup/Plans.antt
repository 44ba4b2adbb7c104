-- ===== src/Dedup/Plans.antt =====
-- Dry-run plans: backend/app/dedup/execution_plan_service.py.
pub mod Reading
use ai_brain.Prelude.{
  next_id, ℕ, String, Bool, true, false, not, ◌&&◌, ◌||◌, Option, none, some, List, [], ◌∷◌, ◌++◌,
  map, if◌then◌else◌, ◌==◌, text_eq, opt_eq, filter, any, all, is_none, is_empty, find, modify,
}
use ai_brain.Paths.{FilePath, codes, path_of, suffix, lstrip_dot, lower, text_beq}
use ai_brain.Dedup.Records.{
  Database, Document, DuplicateReview, DuplicateReviewMember, DedupExecutionPlan,
  DedupExecutionPlanAction, review_keyed, plan_keyed, plan_action_keyed,
}
use ai_brain.Dedup.Exec.{
  Exec, Result, Error, review_not_found, plan_not_found, review_not_approved, no_canonical,
  no_members, canonical_not_member, nothing_to_plan, pure, raise, gets, required, guard, commit,
  maybe, ◌>>=◌, ◌>>◌,
}
use ai_brain.Dedup.Os.{Os, Stat, os, attempt}
use ai_brain.Dedup.Reviews.{find_document, is_approved, member_ids}

pub record FileObservation : Type 0 where
  pub exists : Bool
  pub content_hash : Option String
  pub file_size : Option ℕ

abbrev pub unseen : FileObservation
unseen = record { exists = false; content_hash = none; file_size = none }

-- Python's `==` on optional texts.
abbrev pub opt_text_eq : Option String → Option String → Bool
opt_text_eq none none = true
opt_text_eq (some a) (some b) = text_eq a b
opt_text_eq _ _ = false

-- The suffix of the path, without its dot, against the document's type.
unfoldable pub type_matches : String → String → Bool
type_matches path source_type =
    text_beq (lower (lstrip_dot (suffix (path_of (codes path))))) (lower (codes source_type))

pub record ActionValidity : Type 0 where
  pub action_id : ℕ
  pub document_exists : Bool
  pub path_changed : Bool
  pub exists_now : Bool
  pub type_matches : Bool
  pub hash_matches : Bool
  pub size_matches : Bool
  pub is_valid : Bool

pub record PlanValidity : Type 0 where
  pub plan_id : ℕ
  pub canonical_document_exists : Bool
  pub canonical_path_changed : Bool
  pub canonical_exists_now : Bool
  pub canonical_type_matches : Bool
  pub canonical_hash_matches : Bool
  pub canonical_size_matches : Bool
  pub canonical_valid : Bool
  pub actions : List ActionValidity
  pub is_valid : Bool

source_changed : String → Option Document → Bool
source_changed path none = true
source_changed path (some d) = not (text_eq d.source path)

document_type_matches : String → Option Document → Bool
unfolding type_matches
document_type_matches path none = false
document_type_matches path (some d) = type_matches path d.source_type

-- The checks of one file, the same for the canonical document and for an action: the document as it
-- is now, the frozen path, what was observed when the plan was made, and what is observed now.
unfoldable pub check_file :
    ℕ
    → Option Document
    → String
    → Bool
    → Option String
    → Option ℕ
    → FileObservation
    → ActionValidity
unfolding source_changed document_type_matches
check_file id document path observed_exists observed_hash observed_size seen =
    let document_exists = not (is_none document) in
    let path_changed = source_changed path document in
    let matches = document_type_matches path document in
    let hash_matches =
      seen.exists && observed_exists && opt_text_eq seen.content_hash observed_hash in
    let size_matches = seen.exists && observed_exists && opt_eq seen.file_size observed_size in
    record {
      action_id = id;
      document_exists = document_exists;
      path_changed = path_changed;
      exists_now = seen.exists;
      type_matches = matches;
      hash_matches = hash_matches;
      size_matches = size_matches;
      is_valid =
          document_exists
          && not path_changed
          && seen.exists
          && observed_exists
          && matches
          && hash_matches
          && size_matches;
    }

unfoldable pub actions_of : ℕ → Database → List DedupExecutionPlanAction
actions_of plan_id db = filter (λ a. a.plan_id == plan_id) db.plan_actions

module _ {W : Type 0} (sys : Os W) where
  -- `_observe_file`: a file that cannot be read counts as absent.
  unfoldable pub observe_path : FilePath → Exec W FileObservation
  observe_path path = do
    is_file ← os (sys.is_file path)
    if not is_file then pure unseen else do
      digest ← attempt (sys.hash_file path)
      maybe digest (pure unseen) λ h. do
        st ← attempt (sys.stat path)
        maybe st (pure unseen) λ st.
            pure (record { exists = true; content_hash = some h; file_size = some st.st_size })

  unfoldable pub observe_file : String → Exec W FileObservation
  observe_file path_str = observe_path (path_of (codes path_str))

  unfoldable pub check_action : DedupExecutionPlanAction → Exec W ActionValidity
  unfolding check_file
  check_action a = do
    document ← gets (λ db. find_document a.document_id db.documents)
    seen ← observe_file a.source_path
    pure (
        check_file a.id document a.source_path a.observed_exists a.observed_content_hash
          a.observed_file_size seen)

  unfoldable pub check_actions : List DedupExecutionPlanAction → Exec W (List ActionValidity)
  check_actions [] = pure []
  check_actions (a ∷ rest) = do v ← check_action a; vs ← check_actions rest; pure (v ∷ vs)

  -- The files are read now, and nothing is trusted from an earlier call.
  unfoldable pub check_plan_validity : ℕ → Exec W PlanValidity
  unfolding check_file
  check_plan_validity plan_id = do
    found ← gets (λ db. find plan_id db.plans)
    plan ← required plan_not_found found
    document ← gets (λ db. find_document plan.canonical_document_id db.documents)
    seen ← observe_file plan.canonical_source_path
    let c =
        check_file 0 document plan.canonical_source_path plan.canonical_observed_exists
          plan.canonical_observed_content_hash plan.canonical_observed_file_size seen
    rows ← gets (actions_of plan_id)
    actions ← check_actions rows
    pure (record {
      plan_id = plan.id;
      canonical_document_exists = c.document_exists;
      canonical_path_changed = c.path_changed;
      canonical_exists_now = c.exists_now;
      canonical_type_matches = c.type_matches;
      canonical_hash_matches = c.hash_matches;
      canonical_size_matches = c.size_matches;
      canonical_valid = c.is_valid;
      actions = actions;
      is_valid = c.is_valid && all (λ v. v.is_valid) actions;
    })

-- The documents of a review's members that still have a row.
unfoldable pub member_documents : List String → List Document → List Document
member_documents [] ds = []
member_documents (id ∷ ids) ds = elim (find_document id ds) [
  | none ↦ member_documents ids ds
  | some d ↦ d ∷ member_documents ids ds
]

-- The plan's row for a document that was observed.
planned_action : ℕ → ℕ → Document → Document → FileObservation → DedupExecutionPlanAction
planned_action id plan_id canonical d seen = record {
  id = id;
  plan_id = plan_id;
  document_id = d.id;
  source_path = d.source;
  target_document_id = canonical.id;
  target_path = canonical.source;
  observed_exists = seen.exists;
  observed_content_hash = seen.content_hash;
  observed_file_size = seen.file_size;
}

-- `INSERT` of one action for each document whose file is there.
unfoldable pub add_actions : ℕ → Document → List (Document × FileObservation) → Database → Database
unfolding planned_action
add_actions plan_id canonical [] db = db
add_actions plan_id canonical ((d, seen) ∷ rest) db =
    if seen.exists
    then add_actions plan_id canonical rest (record db {
      plan_actions =
          db.plan_actions ++ planned_action (next_id db.plan_actions) plan_id canonical d seen ∷ [];
    })
    else add_actions plan_id canonical rest db

unfoldable pub add_plan : ℕ → Document → FileObservation → Database → Database
add_plan review_id canonical seen db = record db {
  plans =
      db.plans
      ++ record {
        id = next_id db.plans;
        review_id = review_id;
        canonical_document_id = canonical.id;
        canonical_source_path = canonical.source;
        canonical_observed_exists = seen.exists;
        canonical_observed_content_hash = seen.content_hash;
        canonical_observed_file_size = seen.file_size;
      }
        ∷ [];
}

module _ {W : Type 0} (sys : Os W) where
  unfoldable pub observe_all : List Document → Exec W (List (Document × FileObservation))
  observe_all [] = pure []
  observe_all (d ∷ ds) = do
    seen ← observe_file sys d.source
    rest ← observe_all ds
    pure ((d, seen) ∷ rest)

  -- A member whose file is gone gets no action; if there were such members and they were all, there
  -- is no plan. The id of the new plan is returned.
  unfoldable pub generate_plan_for_review : ℕ → Exec W ℕ
  generate_plan_for_review review_id = do
    found ← gets (λ db. find review_id db.reviews)
    review ← required review_not_found found
    guard (is_approved review.status) review_not_approved
    chosen ← required no_canonical review.human_selected_canonical_document_id
    ids ← gets (member_ids review_id)
    documents ← gets (λ db. member_documents ids db.documents)
    guard (not (is_empty documents)) no_members
    canonical ← required canonical_not_member (find_document chosen documents)
    observations ← observe_all (filter (λ d. not (text_eq d.id canonical.id)) documents)
    guard (is_empty observations || any (λ (d, seen). seen.exists) observations) nothing_to_plan
    seen ← observe_file sys canonical.source
    id ← gets (λ db. next_id db.plans)
    commit (λ db. add_actions id canonical observations (add_plan review.id canonical seen db))
    pure id
